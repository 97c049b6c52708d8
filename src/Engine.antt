-- ===== src/Engine.antt =====
-- The engine of src/p2p/src/p2p_adapter.c: ten peer slots, the received packet queue, and the
-- functions that run on the engine thread. The results of the libraries' functions are arguments.
pub mod Peers
pub mod Loops
pub mod Timer
pub mod Laws
pub mod Life
use libp2pchannel.Prelude.{
  ℕ, zero, suc, ◌+◌, ◌*◌, Bool, Option, none, some, List, [], ◌∷◌, get_or, set,
}
use libp2pchannel.PacketQueue.{PacketQueue}
use libp2pchannel.Peer.{Peer, Host, Effect, fresh_peer}

-- `p2p_engine_t`, less threads, TLS files and `pending_accept_peer`, which no function uses.
pub record Engine : Type 0 where
  pub host : Host
  pub open host use *
  pub peers : List Peer
  pub peer_count : ℕ
  pub recv_queue : PacketQueue
  pub next_wakeup_us : ℕ
  pub running : Bool
  pub stun_host : List ℕ
  pub stun_port : ℕ
  pub turn_host : List ℕ
  pub turn_port : ℕ
  pub turn_username : List ℕ
  pub turn_password : List ℕ
  pub enable_tcp : Bool

-- `&eng->peers[i]`, for `i` in range
abbrev pub peer_at : Engine → ℕ → Peer
peer_at eng i = get_or eng.peers i (fresh_peer i)

abbrev pub set_peer : Engine → ℕ → Peer → Engine
set_peer eng i p = record eng { peers = set eng.peers i p }

-- A callback's peer, which is NULL for a user session that has none: then nothing happens.
unfoldable pub with_peer : Engine → Option ℕ → (Peer → Peer × List Effect) → Engine × List Effect
with_peer eng none f = (eng, [])
with_peer eng (some i) f = let (p, es) = f (peer_at eng i) in (set_peer eng i p, es)

-- The slots that the loop of `p2p_engine_init` prepares: `n` of them from index `i`.
unfoldable pub fresh_peers : ℕ → ℕ → List Peer
fresh_peers i zero = []
fresh_peers i (suc n) = fresh_peer i ∷ fresh_peers (i + 1) n
