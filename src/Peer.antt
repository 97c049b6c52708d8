-- ===== src/Peer.antt =====
-- One peer context of src/p2p/src/p2p_adapter.c (`p2p_peer_ctx_t` of its header) and what the code
-- asks of the libraries and of the application. Handles of libjuice, xquic and the media session are
-- numbers, and an option is a pointer that may be NULL; `cid` is `none` while its length is 0. The
-- back pointer `engine` is set once by `p2p_engine_init`, so what the callbacks read through it is
-- the argument `Host`.
pub mod Ice
pub mod Quic
pub mod Moq
pub mod Send
use libp2pchannel.Prelude.{
  ℕ, Bool, true, false, Option, none, some, List, [], ◌∷◌, ◌==◌, if◌then◌else◌, set, ℤ, negsuc,
}
use libp2pchannel.Adapter.{Role, PeerState, IceState, FrameHeader, idle}
use libp2pchannel.FrameQueue.{FrameQueue, MoqWrite, empty_queue}

-- The fields that the adapter itself does not read or write are left out: `user_data`,
-- `answer_pending`, the pause flags, `stale_cid`, `needs_stale_close`. `offer_pending` is the session's.
pub record Peer : Type 0 where
  pub index : ℕ
  pub state : PeerState
  pub ice_agent : Option ℕ
  pub cid : Option ℕ
  pub xqc_conn : Option ℕ
  pub moq_session : Option ℕ
  pub has_user_session : Bool
  pub video_track : Option ℕ
  pub audio_track : Option ℕ
  pub video_subscribe_id : ℤ
  pub audio_subscribe_id : ℤ
  pub datachannel_ready : Bool
  pub peer_id : List ℕ
  pub needs_continue_send : Bool
  pub needs_quic_start : Bool
  pub needs_quic_restart : Bool
  pub needs_ice_restart : Bool
  pub needs_removal : Bool
  pub quic_restart_fail_count : ℕ
  pub last_ice_recv_us : ℕ
  pub created_us : ℕ
  pub offer_pending : Bool
  pub frame_queue : FrameQueue

-- Which of `p2p_adapter_callbacks_t` are set.
pub record Callbacks : Type 0 where
  pub ice_state : Bool
  pub ice_candidate : Bool
  pub ice_gathering_done : Bool
  pub quic_connected : Bool
  pub quic_closed : Bool
  pub data_recv : Bool
  pub ice_restart_needed : Bool
  pub bitrate_change : Bool

-- What a peer's callbacks read of its engine.
pub record Host : Type 0 where
  pub role : Role
  pub callbacks : Callbacks
  pub has_xqc_engine : Bool

-- Calls out of the adapter, in the order in which they are made. The first number of a callback is
-- the peer's index.
pub data Effect : Type 0 where
  on_ice_state : ℕ → IceState → Effect
  on_ice_candidate : ℕ → List ℕ → Effect
  on_ice_gathering_done : ℕ → Effect
  on_quic_connected : ℕ → Effect
  on_quic_closed : ℕ → Effect
  on_data_recv : ℕ → FrameHeader → Option (List ℕ) → Effect
  on_ice_restart_needed : ℕ → Effect
  on_bitrate_change : ℕ → ℕ → Effect
  session_destroy : ℕ → Effect
  configure_bitrate : ℕ → Effect
  set_pkt_filter : ℕ → Effect
  conn_close : Option ℕ → Effect
  continue_send_by_conn : ℕ → Effect
  continue_send : ℕ → Effect
  juice_destroy : ℕ → Effect
  packet_process : ℕ → List ℕ → ℕ → Effect
  finish_recv : Effect
  main_logic : Effect
  moq_write : ℕ → MoqWrite → Effect
  request_keyframe : ℕ → ℤ → Effect
  subscribe_ok : ℕ → ℕ → Effect
  subscribe_latest : ℕ → List ℕ → Effect

pub data Status : Type 0 where
  success failure : Status

-- A callback, if the application set it.
abbrev pub call_if : Bool → Effect → List Effect
call_if set e = if set then e ∷ [] else []

-- A call on a handle, if it is not NULL.
abbrev pub call_on : Option ℕ → (ℕ → Effect) → List Effect
call_on none f = []
call_on (some h) f = f h ∷ []

-- `handle == value`, where `value` is not NULL.
abbrev pub points_to : Option ℕ → ℕ → Bool
points_to none h = false
points_to (some g) h = g == h

abbrev pub is_set : Option ℕ → Bool
is_set none = false
is_set (some h) = true

-- A peer slot as `p2p_engine_init` leaves it.
unfoldable pub fresh_peer : ℕ → Peer
unfolding empty_queue
fresh_peer i = record {
  index = i;
  state = idle;
  ice_agent = none;
  cid = none;
  xqc_conn = none;
  moq_session = none;
  has_user_session = false;
  video_track = none;
  audio_track = none;
  video_subscribe_id = negsuc 0;
  audio_subscribe_id = negsuc 0;
  datachannel_ready = false;
  peer_id = [];
  needs_continue_send = false;
  needs_quic_start = false;
  needs_quic_restart = false;
  needs_ice_restart = false;
  needs_removal = false;
  quic_restart_fail_count = 0;
  last_ice_recv_us = 0;
  created_us = 0;
  offer_pending = false;
  frame_queue = empty_queue;
}
