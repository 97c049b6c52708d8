-- ===== src/Session.antt =====
-- The session layer of src/p2p/src/p2pav.c over the engine: what a session keeps, and the calls that it
-- makes of the application, of the signaling client and of libjuice.
pub mod Reassembly
pub mod Channels
pub mod Media
pub mod Receive
pub mod Signals
pub mod Create
pub mod Life
pub mod Events
pub mod Stats
use libp2pchannel.Prelude.{
  ℕ, Bool, false, not, ◌&&◌, Option, List, [], ◌∷◌, ltb, leb, if◌then◌else◌, set,
}
use libp2pchannel.Prelude.Text.{codes}
use libp2pchannel.Adapter.{Role, rank}
use libp2pchannel.Peer.{Peer, Effect, is_set}
use libp2pchannel.Engine.{Engine}
use libp2pchannel.Session.Reassembly.{
  Intake, reasm_buf_init, video_max_size, audio_max_size, data_max_size,
}

-- `p2pav_error_t`
pub data SessionError : Type 0 where
  ok invalid_param not_connected room_full auth_failed ice_failed quic_failed codec_failed timeout
        peer_not_found alloc_failed channel_full internal :
      SessionError

-- `p2pav_error_string`
unfoldable pub error_string : SessionError → List ℕ
error_string ok = codes "OK"
error_string invalid_param = codes "Invalid parameter"
error_string not_connected = codes "Not connected"
error_string room_full = codes "Room full"
error_string auth_failed = codes "Authentication failed"
error_string ice_failed = codes "ICE failed"
error_string quic_failed = codes "QUIC failed"
error_string codec_failed = codes "Codec failed"
error_string timeout = codes "Timeout"
error_string peer_not_found = codes "Peer not found"
error_string alloc_failed = codes "Allocation failed"
error_string channel_full = codes "Channel full"
error_string internal = codes "Internal error"

-- `P2PAV_MAX_PEERS` and `P2PAV_MAX_DATA_CHANNELS`
abbrev pub max_peers : ℕ
max_peers = 10

abbrev pub max_data_channels : ℕ
max_data_channels = 8

-- Which of `p2pav_session_callbacks_t` are set.
pub record SessionCallbacks : Type 0 where
  pub on_connected : Bool
  pub on_disconnected : Bool
  pub on_peer_ready : Bool
  pub on_peer_joined : Bool
  pub on_peer_left : Bool
  pub on_error : Bool

-- `p2pav_timing_t`
pub record Timing : Type 0 where
  pub session_start_us : ℕ
  pub signaling_connected_us : ℕ
  pub room_joined_us : ℕ
  pub ice_gathering_start_us : ℕ
  pub ice_gathering_done_us : ℕ
  pub ice_connected_us : ℕ
  pub quic_connected_us : ℕ
  pub first_video_sent_us : ℕ
  pub first_video_recv_us : ℕ
  pub first_audio_recv_us : ℕ

-- `p2pav_data_channel_entry_t`; the reliability is the value of its enumerator.
pub record Channel : Type 0 where
  pub active : Bool
  pub id : ℕ
  pub peer_index : ℕ
  pub reliability : ℕ
  pub label : List ℕ

-- `idr_cache`: NULL, memory with its bytes, or memory that `realloc` has freed and to which the pointer
-- still points.
pub data IdrCache : Type 0 where
  no_cache : IdrCache
  cached : List ℕ → IdrCache
  dangling : IdrCache

-- `struct p2pav_session_s`, less mutexes, threads, the codec settings, which it only stores, and the
-- callbacks' user data. A callback is whether it is set. `idr_cache_size` is the length of the cache.
pub record Session : Type 0 where
  pub role : Role
  pub signaling_url : List ℕ
  pub auth_token : List ℕ
  pub room_id : List ℕ
  pub own_id : List ℕ
  pub stun_server : List ℕ
  pub turn_server : List ℕ
  pub session_turn_username : List ℕ
  pub session_turn_password : List ℕ
  pub session_enable_tcp : Bool
  pub engine : Engine
  pub engine_started : Bool
  pub sig_connected : Bool
  pub session_cbs : SessionCallbacks
  pub video_recv_cb : Bool
  pub keyframe_req_cb : Bool
  pub video_muted : Bool
  pub video_seq : ℕ
  pub idr_cache : IdrCache
  pub audio_recv_cb : Bool
  pub audio_muted : Bool
  pub audio_seq : ℕ
  pub data_channels : List Channel
  pub next_channel_id : ℕ
  pub data_recv_cb : Bool
  pub data_ch_cb : Bool
  pub data_seq : ℕ
  pub peer_states : List Intake
  pub timing : Timing
  pub first_video_sent : Bool
  pub first_video_recvd : Bool
  pub first_audio_recvd : Bool
  pub stats_running : Bool
  pub session_running : Bool

-- Calls out of a session, in order. `of_engine` is a call that the engine makes on its behalf;
-- `send_` and `signaling_` are calls of the signaling client, and the four before the last two are calls
-- of libjuice on an agent.
pub data Notice : Type 0 where
  connected : Notice
  disconnected : SessionError → Notice
  peer_ready : List ℕ → Notice
  peer_joined : List ℕ → Notice
  peer_left : List ℕ → Notice
  session_error : SessionError → List ℕ → Notice
  video_frame : List ℕ → List ℕ → ℕ → Bool → Notice
  audio_frame : List ℕ → List ℕ → ℕ → Notice
  data_message : List ℕ → ℕ → List ℕ → Notice
  keyframe_request : List ℕ → Notice
  channel_opened : List ℕ → ℕ → Notice
  of_engine : Effect → Notice
  send_create_room : List ℕ → Notice
  send_join_room : List ℕ → Notice
  send_ice_offer : List ℕ → List ℕ → Notice
  send_ice_answer : List ℕ → List ℕ → Notice
  send_ice_candidate : List ℕ → List ℕ → Notice
  send_gathering_done : List ℕ → Notice
  gather_candidates : ℕ → Notice
  set_remote_description : ℕ → List ℕ → Notice
  add_remote_candidate : ℕ → List ℕ → Notice
  set_remote_gathering_done : ℕ → Notice
  signaling_connect : List ℕ → List ℕ → Option (List ℕ) → Notice
  signaling_disconnect : Notice

-- A call of the application, if the callback is set.
abbrev pub notify_if : Bool → Notice → List Notice
notify_if set n = if set then n ∷ [] else []

abbrev pub notices_of : List Effect → List Notice
notices_of [] = []
notices_of (e ∷ es) = of_engine e ∷ notices_of es

-- `state >= QUIC_CONNECTED && state < FAILED && ice_agent`
abbrev pub can_send : Peer → Bool
can_send p = leb 5 (rank p.state) && (ltb (rank p.state) 6 && is_set p.ice_agent)

abbrev pub no_channel : Channel
no_channel = record { active = false; id = 0; peer_index = 0; reliability = 0; label = [] }

-- The zeroed `p2pav_peer_state_t` with its buffers.
unfoldable pub fresh_intake : ℕ → Intake
fresh_intake fill = record {
  video_reasm = reasm_buf_init fill video_max_size;
  audio_reasm = reasm_buf_init fill audio_max_size;
  data_reasm = reasm_buf_init fill data_max_size;
  last_video_seq = 0;
  has_last_video_seq = false;
  waiting_for_keyframe = false;
  last_idr_req_us = 0;
}
