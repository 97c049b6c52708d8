-- ===== src/Engine/Life/Laws.antt =====
-- What `p2p_engine_init` sets up, and what becomes of an arriving datagram, in
-- src/p2p/src/p2p_adapter.c.
use libp2pchannel.Prelude.{
  ℕ, zero, suc, ◌+◌, ◌≤◌, ◌<◌, ◌≡◌, refl, sym, ap, subst, ◌≢◌, get_or-set_ne, Bool, true, Option,
  none, some, List, [], ◌∷◌, ◌++◌, arith, length, replicate, get_or, pos, get_or-set_self,
  take-length,
}
use libp2pchannel.Adapter.{max_subscribers, rank}
use libp2pchannel.PacketQueue.{zero_packet, PacketQueue, Status, success, failure, init}
use libp2pchannel.PacketQueue.Fifo.{Datagram}
use libp2pchannel.PacketQueue.Inv.{IsValid, init-IsValid, push_same, push_same-IsValid}
use libp2pchannel.PacketQueue.Refine.{contents, push-Fifo_push, length-contents}
use libp2pchannel.Peer.{Peer, fresh_peer, packet_process, finish_recv, main_logic}
use libp2pchannel.Engine.{Engine, peer_at, fresh_peers}
use libp2pchannel.Engine.Loops.{process_recv_queue}
use libp2pchannel.Engine.Peers.{is_free, find_peer}
use libp2pchannel.Engine.Laws.{process_recv_queue-drains}
use libp2pchannel.Engine.Life.{
  EngineConfig, pkt_queue_cap, set_up, zero_queue, engine_on, engine_init, ice_on_recv,
}

fresh_peers-free : (n i k : ℕ) (d : Peer) → k < n → is_free (get_or (fresh_peers i n) k d) ≡ true
unfolding fresh_peers fresh_peer
fresh_peers-free zero i k d h = absurd (omega arith)
fresh_peers-free (suc n) i zero d h = refl
fresh_peers-free (suc n) i (suc k) d h = fresh_peers-free n (i + 1) k d (omega arith)

engine_on-some :
    (config : EngineConfig) (created : Bool) (x : Option PacketQueue × Status) (eng : Engine)
    → engine_on config created x ≡ some eng
    → (r : PacketQueue) × (x ≡ (some r, success)) × (set_up config r ≡ eng)
unfolding engine_on
engine_on-some config created (q, failure) eng e = cc
engine_on-some config created (none, success) eng e = cc
engine_on-some config created (some r, success) eng e = (r, refl, ground arith)

fresh_peers-unnamed : (n i j : ℕ) (id : List ℕ) → find_peer j id (fresh_peers i n) ≡ none
unfolding fresh_peers fresh_peer find_peer
fresh_peers-unnamed zero i j id = refl
fresh_peers-unnamed (suc n) i j id = fresh_peers-unnamed n (i + 1) (j + 1) id

-- With its memory and xquic there, `p2p_engine_init` succeeds.
pub engine_init-some :
    (config : EngineConfig)
    → (q : PacketQueue) × (engine_init config true true ≡ some (set_up config q))
unfolding engine_init engine_on init
engine_init-some config = (
  record {
    buf = replicate pkt_queue_cap zero_packet;
    capacity = pkt_queue_cap;
    head = 0;
    tail = 0;
    count = 0;
  },
  refl,
)

-- An engine that `p2p_engine_init` has prepared: an empty, valid queue of 2048 packets, and ten free
-- slots, of which none has a name.
pub record Ready (eng : Engine) : Type 0 where
  pub queue_valid : IsValid eng.recv_queue
  pub queue_empty : eng.recv_queue.count ≡ 0
  pub queue_size : eng.recv_queue.capacity ≡ pkt_queue_cap
  pub no_peers : eng.peer_count ≡ 0
  pub all_free : (i : ℕ) → i < max_subscribers → is_free (peer_at eng i) ≡ true
  pub unnamed : (id : List ℕ) → find_peer 0 id eng.peers ≡ none

-- An engine from `p2p_engine_init` is ready: its packet queue is valid, empty and holds 2048 packets,
-- no peer is counted, all ten slots are free and no name is found.
pub engine_init-Ready :
    (config : EngineConfig) (allocated created : Bool) (eng : Engine)
    → engine_init config allocated created ≡ some eng
    → Ready eng
unfolding engine_init
engine_init-Ready config allocated created eng e =
    let (r, same, is) =
      engine_on-some config created (init (some zero_queue) (pos pkt_queue_cap) allocated) eng e in
    let (valid, empty, size) = init-IsValid zero_queue r (pos pkt_queue_cap) allocated same in
    subst Ready is (record {
      queue_valid = valid;
      queue_empty = empty;
      queue_size = ground arith;
      no_peers = refl;
      all_free = λ i h. fresh_peers-free max_subscribers 0 i (fresh_peer i) h;
      unnamed = λ id. fresh_peers-unnamed max_subscribers 0 0 id;
    })

List-empty : (ds : List Datagram) → length ds ≡ 0 → ds ≡ []
List-empty [] e = refl
List-empty (d ∷ ds) e = absurd (omega arith)

-- A datagram of 1 to 1500 bytes from the agent of slot `i` is put behind those of a valid queue that
-- is not full, and the slot remembers the time; no other slot has changed.
pub ice_on_recv-queues :
    (i now : ℕ) (payload : List ℕ) (eng : Engine) (j : ℕ)
    → IsValid eng.recv_queue
    → i < length eng.peers
    → 0 < length payload
    → length payload ≤ 1500
    → eng.recv_queue.count < eng.recv_queue.capacity
    → j ≢ i
    → let eng' = ice_on_recv i now payload eng in
      let d : Datagram = record {
        payload = payload;
        recv_time_us = now;
        agent_idx = pos (peer_at eng i).index;
      } in
      IsValid eng'.recv_queue
      × (contents eng'.recv_queue ≡ contents eng.recv_queue ++ (d ∷ []))
      × ((peer_at eng' i).last_ice_recv_us ≡ now)
      × ((peer_at eng' i).state ≡ (peer_at eng i).state)
      × (peer_at eng' j ≡ peer_at eng j)
unfolding ice_on_recv
ice_on_recv-queues i now payload eng j v inside some_bytes small room ne =
    let p = peer_at eng i in
    let agent = pos p.index in
    ground (
      arith,
      push_same eng.recv_queue payload (length payload) now agent,
      push_same-IsValid payload (length payload) now agent v,
      push-Fifo_push payload (length payload) now agent v (omega arith),
      length-contents eng.recv_queue,
      take-length payload,
      get_or-set_self eng.peers i (record p { last_ice_recv_us = now }) (fresh_peer i) inside,
      get_or-set_ne eng.peers i j (record p { last_ice_recv_us = now }) (fresh_peer j)
          (λ q. ne (sym q)),
    )

-- A datagram of 1 to 1500 bytes that arrives for slot `i`, which is at least connecting, while the
-- queue is valid and empty, is handed to xquic whole in the next round, with its time; xquic then
-- finishes the batch.
pub ice_on_recv-delivered :
    (i now : ℕ) (payload : List ℕ) (eng : Engine)
    → IsValid eng.recv_queue
    → eng.recv_queue.count ≡ 0
    → length eng.peers ≡ max_subscribers
    → i < max_subscribers
    → (peer_at eng i).index ≡ i
    → 2 ≤ rank (peer_at eng i).state
    → 0 < length payload
    → length payload ≤ 1500
    → (process_recv_queue (ice_on_recv i now payload eng)).1
      ≡ packet_process i payload now ∷ finish_recv ∷ main_logic ∷ []
ice_on_recv-delivered i now payload eng v empty ten inside index alive some_bytes small =
    let q =
      ice_on_recv-queues i now payload eng (suc i) v (omega arith) some_bytes small
        (omega (arith, v.positive)) (omega arith) in
    let d = process_recv_queue-drains (ice_on_recv i now payload eng) q.0 in
    ground (arith, q, d, length-contents eng.recv_queue, List-empty (contents eng.recv_queue))

-- What the callbacks of its peers read of an engine from `p2p_engine_init`.
pub engine_init-host :
    (config : EngineConfig) (allocated created : Bool) (eng : Engine)
    → engine_init config allocated created ≡ some eng
    → eng.host ≡ record { role = config.role; callbacks = config.callbacks; has_xqc_engine = true }
unfolding engine_init
engine_init-host config allocated created eng e =
    let (r, is, made) =
      engine_on-some config created (init (some zero_queue) (pos pkt_queue_cap) allocated) eng e in
    ap (λ (g : Engine). g.host) (sym made)
