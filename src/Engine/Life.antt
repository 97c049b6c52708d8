-- ===== src/Engine/Life.antt =====
-- The life of the engine of src/p2p/src/p2p_adapter.c: initialisation, start, stop and destruction,
-- and the arrival of a datagram from libjuice.
pub mod Laws
use libp2pchannel.Prelude.{
  ℕ, Bool, true, false, Option, none, some, List, [], ◌∷◌, ◌++◌, length, set, pos, ltb, ◌==◌,
  if◌then◌else◌,
}
use libp2pchannel.Prelude.Text.{snprintf_s}
use libp2pchannel.Adapter.{Role, max_subscribers}
use libp2pchannel.FrameQueue.{frame_queue_clear}
use libp2pchannel.PacketQueue.{PacketQueue, Status, success, failure, init, push, destroy}
use libp2pchannel.PacketQueue.Inv.{or_same}
use libp2pchannel.Peer.{Peer, Callbacks, Effect, juice_destroy, call_on}
use libp2pchannel.Engine.{Engine, peer_at, fresh_peers}

-- `p2p_engine_config_t`, less what only xquic reads; `none` is NULL.
pub record EngineConfig : Type 0 where
  pub role : Role
  pub callbacks : Callbacks
  pub stun_server_host : Option (List ℕ)
  pub stun_server_port : ℕ
  pub turn_server_host : Option (List ℕ)
  pub turn_server_port : ℕ
  pub turn_username : Option (List ℕ)
  pub turn_password : Option (List ℕ)
  pub enable_tcp : Bool

-- `P2P_PKT_QUEUE_CAP`
abbrev pub pkt_queue_cap : ℕ
pkt_queue_cap = 2048

-- `snprintf` of a string into a zeroed buffer, if it is not NULL.
abbrev pub copied : ℕ → Option (List ℕ) → List ℕ
copied size none = []
copied size (some s) = snprintf_s size s

abbrev pub or_else : Option (List ℕ) → Option (List ℕ) → Option (List ℕ)
or_else none b = b
or_else (some a) b = some a

abbrev pub port_or : ℕ → ℕ → ℕ
port_or port fallback = if port == 0 then fallback else port

-- The engine that `p2p_engine_init` sets up around a packet queue.
abbrev pub set_up : EngineConfig → PacketQueue → Engine
set_up config q = record {
  host = record { role = config.role; callbacks = config.callbacks; has_xqc_engine = true };
  peers = fresh_peers 0 max_subscribers;
  peer_count = 0;
  recv_queue = q;
  next_wakeup_us = 0;
  running = false;
  stun_host = copied 256 config.stun_server_host;
  stun_port = port_or config.stun_server_port 3478;
  turn_host = copied 256 (or_else config.turn_server_host config.stun_server_host);
  turn_port = port_or config.turn_server_port (port_or config.stun_server_port 3478);
  turn_username = copied 128 config.turn_username;
  turn_password = copied 128 config.turn_password;
  enable_tcp = config.enable_tcp;
}

-- The zeroed packet queue.
abbrev pub zero_queue : PacketQueue
zero_queue = record { buf = []; capacity = 0; head = 0; tail = 0; count = 0 }

-- What `p2p_engine_init` makes of the result of `p2p_packet_queue_init`; `created` says whether
-- xquic gives its configuration and its engine. What a failed call leaves behind is not modelled.
engine_on : EngineConfig → Bool → Option PacketQueue × Status → Option Engine
engine_on config created (q, failure) = none
engine_on config created (none, success) = none
engine_on config created (some q, success) = if created then some (set_up config q) else none

-- `p2p_engine_init`; `allocated` says whether the packets' memory is there.
unfoldable pub engine_init : EngineConfig → Bool → Bool → Option Engine
unfolding engine_on
engine_init config allocated created =
    engine_on config created (init (some zero_queue) (pos pkt_queue_cap) allocated)

-- `p2p_engine_start`; `created` says whether the thread is.
unfoldable pub engine_start : Bool → Engine → Engine × Status
engine_start created eng = (record eng { running = created }, if created then success else failure)

-- `p2p_engine_stop`
unfoldable pub engine_stop : Engine → Engine
engine_stop eng = record eng { running = false }

-- One slot in `p2p_engine_destroy`.
abbrev pub destroyed_peer : Peer → Peer
destroyed_peer p = record p {
  ice_agent = none;
  frame_queue = frame_queue_clear p.frame_queue;
  has_user_session = false;
}

destroy_peers : List Peer → List Peer × List Effect
destroy_peers [] = ([], [])
destroy_peers (p ∷ ps) =
    let (qs, es) = destroy_peers ps in
    (destroyed_peer p ∷ qs, call_on p.ice_agent juice_destroy ++ es)

-- `p2p_engine_destroy`
unfoldable pub engine_destroy : Engine → Engine × List Effect
unfolding destroy_peers destroy
engine_destroy eng =
    let (ps, es) = destroy_peers eng.peers in
    (
      record eng {
        host = record eng.host { has_xqc_engine = false };
        peers = ps;
        recv_queue = or_same eng.recv_queue (destroy (some eng.recv_queue));
      },
      es,
    )

-- `ice_on_recv` for the agent of slot `i`, at time `now`.
unfoldable pub ice_on_recv : ℕ → ℕ → List ℕ → Engine → Engine
ice_on_recv i now payload eng =
    let p = peer_at eng i in
    let (q, s) = push (some eng.recv_queue) (some payload) (length payload) now (pos p.index) in
    record eng {
      peers =
          if ltb 0 (length payload)
          then set eng.peers i (record p { last_ice_recv_us = now })
          else eng.peers;
      recv_queue = or_same eng.recv_queue q;
    }
