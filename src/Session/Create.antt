-- ===== src/Session/Create.antt =====
-- The creation of a session of src/p2p/src/p2pav.c: `p2pav_session_create`.
pub mod Laws
use libp2pchannel.Prelude.{
  ℕ, Bool, false, Option, none, some, List, [], if◌then◌else◌, replicate, pos,
}
use libp2pchannel.Prelude.Text.{snprintf_s}
use libp2pchannel.Adapter.{Role, publisher}
use libp2pchannel.Peer.{Peer, Callbacks, fresh_peer}
use libp2pchannel.Engine.{Engine}
use libp2pchannel.Engine.Life.{copied, zero_queue}
use libp2pchannel.Session.{
  no_cache, Session, SessionCallbacks, Timing, no_channel, fresh_intake, max_peers,
  max_data_channels,
}

-- `p2pav_session_config_t`, less the certificate files; `none` is NULL.
pub record SessionConfig : Type 0 where
  pub config_role : Role
  pub config_url : Option (List ℕ)
  pub config_token : Option (List ℕ)
  pub config_room : Option (List ℕ)
  pub config_peer : Option (List ℕ)
  pub config_stun : Option (List ℕ)
  pub config_turn : Option (List ℕ)
  pub config_turn_username : Option (List ℕ)
  pub config_turn_password : Option (List ℕ)
  pub config_enable_tcp : Bool

abbrev pub no_engine_callbacks : Callbacks
no_engine_callbacks = record {
  ice_state = false;
  ice_candidate = false;
  ice_gathering_done = false;
  quic_connected = false;
  quic_closed = false;
  data_recv = false;
  ice_restart_needed = false;
  bitrate_change = false;
}

-- A zeroed peer and engine, before `p2p_engine_init`.
abbrev pub zero_peer : Peer
zero_peer = record (fresh_peer 0) { video_subscribe_id = pos 0; audio_subscribe_id = pos 0 }

abbrev pub zero_engine : Engine
zero_engine = record {
  host = record { role = publisher; callbacks = no_engine_callbacks; has_xqc_engine = false };
  peers = replicate max_peers zero_peer;
  peer_count = 0;
  recv_queue = zero_queue;
  next_wakeup_us = 0;
  running = false;
  stun_host = [];
  stun_port = 0;
  turn_host = [];
  turn_port = 0;
  turn_username = [];
  turn_password = [];
  enable_tcp = false;
}

abbrev pub no_callbacks : SessionCallbacks
no_callbacks = record {
  on_connected = false;
  on_disconnected = false;
  on_peer_ready = false;
  on_peer_joined = false;
  on_peer_left = false;
  on_error = false;
}

abbrev pub zero_timing : Timing
zero_timing = record {
  session_start_us = 0;
  signaling_connected_us = 0;
  room_joined_us = 0;
  ice_gathering_start_us = 0;
  ice_gathering_done_us = 0;
  ice_connected_us = 0;
  quic_connected_us = 0;
  first_video_sent_us = 0;
  first_video_recv_us = 0;
  first_audio_recv_us = 0;
}

-- The session that a successful `p2pav_session_create` returns; `fill` stands for the bytes of the
-- buffers, which are not initialised.
unfoldable pub new_session : ℕ → SessionConfig → List ℕ → List ℕ → List ℕ → Session
new_session fill c url room peer = record {
  role = c.config_role;
  signaling_url = snprintf_s 256 url;
  auth_token = copied 1024 c.config_token;
  room_id = snprintf_s 64 room;
  own_id = snprintf_s 64 peer;
  stun_server = copied 256 c.config_stun;
  turn_server = copied 256 c.config_turn;
  session_turn_username = copied 128 c.config_turn_username;
  session_turn_password = copied 128 c.config_turn_password;
  session_enable_tcp = c.config_enable_tcp;
  engine = zero_engine;
  engine_started = false;
  sig_connected = false;
  session_cbs = no_callbacks;
  video_recv_cb = false;
  keyframe_req_cb = false;
  video_muted = false;
  video_seq = 0;
  idr_cache = no_cache;
  audio_recv_cb = false;
  audio_muted = false;
  audio_seq = 0;
  data_channels = replicate max_data_channels no_channel;
  next_channel_id = 1;
  data_recv_cb = false;
  data_ch_cb = false;
  data_seq = 0;
  peer_states = replicate max_peers (fresh_intake fill);
  timing = zero_timing;
  first_video_sent = false;
  first_video_recvd = false;
  first_audio_recvd = false;
  stats_running = false;
  session_running = false;
}

-- `p2pav_session_create`; `allocated` says whether all its memory is there.
unfoldable pub session_create : Bool → ℕ → SessionConfig → Option Session
unfolding new_session
session_create allocated fill c = elim c.config_url [
  | none ↦ none
  | some url ↦ elim c.config_room [
    | none ↦ none
    | some room ↦ elim c.config_peer [
      | none ↦ none
      | some peer ↦ if allocated then some (new_session fill c url room peer) else none
    ]
  ]
]
