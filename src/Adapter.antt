-- ===== src/Adapter.antt =====
-- The enumerations and constants of src/p2p/include/p2p_adapter.h, shared by the models of
-- src/p2p/src/p2p_adapter.c.
pub mod FrameType
use libp2pchannel.Prelude.{ℕ, ◌%◌, Bool, true, false, ◌==◌}

-- `p2p_role_t`
pub data Role : Type 0 where
  publisher subscriber : Role

-- `p2p_peer_state_t`
pub data PeerState : Type 0 where
  idle ice_gathering ice_connecting ice_connected : PeerState
  quic_handshaking quic_connected failed closed : PeerState

-- The value of the enumerator, for the comparisons `<` and `>=` on states.
abbrev pub rank : PeerState → ℕ
rank idle = 0
rank ice_gathering = 1
rank ice_connecting = 2
rank ice_connected = 3
rank quic_handshaking = 4
rank quic_connected = 5
rank failed = 6
rank closed = 7

abbrev pub is_quic_connected : PeerState → Bool
is_quic_connected quic_connected = true
is_quic_connected _ = false

abbrev pub is_ice_connected : PeerState → Bool
is_ice_connected ice_connected = true
is_ice_connected _ = false

abbrev pub is_idle : PeerState → Bool
is_idle idle = true
is_idle _ = false

abbrev pub is_publisher : Role → Bool
is_publisher publisher = true
is_publisher subscriber = false

-- `p2p_ice_state_t`
pub data IceState : Type 0 where
  gathering connecting connected completed failed disconnected : IceState

-- libjuice's `juice_state_t`; `unknown` stands for a value that is none of its enumerators.
pub data JuiceState : Type 0 where
  gathering connecting connected completed failed disconnected unknown : JuiceState

-- `map_juice_state`
unfoldable pub map_juice_state : JuiceState → IceState
map_juice_state JuiceState.gathering = IceState.gathering
map_juice_state JuiceState.connecting = IceState.connecting
map_juice_state JuiceState.connected = IceState.connected
map_juice_state JuiceState.completed = IceState.completed
map_juice_state JuiceState.failed = IceState.failed
map_juice_state JuiceState.disconnected = IceState.disconnected
map_juice_state JuiceState.unknown = IceState.disconnected

-- `js == JUICE_STATE_CONNECTED || js == JUICE_STATE_COMPLETED`
abbrev pub is_juice_alive : JuiceState → Bool
is_juice_alive JuiceState.connected = true
is_juice_alive JuiceState.completed = true
is_juice_alive _ = false

-- `P2P_MAX_SUBSCRIBERS`
abbrev pub max_subscribers : ℕ
max_subscribers = 10

-- `P2P_FRAME_QUEUE_CAP`
abbrev pub frame_queue_cap : ℕ
frame_queue_cap = 32

-- `flags & P2P_FRAME_FLAG_KEY`, the lowest bit
abbrev pub has_key_flag : ℕ → Bool
has_key_flag flags = flags % 2 == 1

-- `p2p_frame_header_t`
pub record FrameHeader : Type 0 where
  pub type : ℕ
  pub flags : ℕ
  pub seq : ℕ
  pub timestamp_us : ℕ
  pub total_len : ℕ
  pub frag_offset : ℕ
  pub frag_len : ℕ
