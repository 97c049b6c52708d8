-- ===== src/Engine/Laws.antt =====
-- What the loops of the engine thread of src/p2p/src/p2p_adapter.c do to each slot, and what a round's
-- clock step decides.
use libp2pchannel.Prelude.{
  ℕ, zero, suc, ◌+◌, ◌-◌, ◌*◌, ◌≤◌, ◌<◌, ◌≡◌, refl, ◌⊎◌, inl, inr, Bool, true, false, not, ◌&&◌,
  ◌||◌, Option, none, List, [], ◌∷◌, ◌++◌, arith, ltb, leb, ◌==◌, if◌then◌else◌, Bool-cases, length,
  get_or, set, get_or-set_ne, pos, negsuc,
}
use libp2pchannel.Adapter.{max_subscribers, is_publisher, ice_connected, is_quic_connected}
use libp2pchannel.PacketQueue.{pop}
use libp2pchannel.PacketQueue.Fifo.{Datagram}
use libp2pchannel.PacketQueue.Inv.{IsValid, pop-IsValid, pop-count}
use libp2pchannel.PacketQueue.Refine.{contents, pop-Fifo_pop, length-contents}
use libp2pchannel.Peer.{
  Peer, Effect, fresh_peer, is_set, packet_process, conn_close, finish_recv, main_logic,
}
use libp2pchannel.Engine.{Engine, peer_at}
use libp2pchannel.Engine.Loops.{
  for_peers, continue_send_peer, process_continue_send, quic_start_peer, process_quic_start,
  quic_restart_peer, process_quic_restart, idle_check_peer, process_manual_idle_check,
  packet_effect, recv_loop, finish_batch, process_recv_queue,
}
use libp2pchannel.Engine.Peers.{remove_peer, removed}
use libp2pchannel.Engine.Timer.{wake, ran_main, sleeps, Ending}
use libp2pchannel.Adapter.{JuiceState, rank}

for_peers-beyond :
    (n i : ℕ) (body : Peer → Peer × List Effect) (ps : List Peer) (d : Peer)
    → n ≤ i
    → get_or (for_peers n body ps).0 i d ≡ get_or ps i d
unfolding for_peers
for_peers-beyond zero i body ps d h = refl
for_peers-beyond (suc n) i body [] d h = refl
for_peers-beyond (suc n) zero body (p ∷ ps) d h = absurd (omega arith)
for_peers-beyond (suc n) (suc i) body (p ∷ ps) d h = for_peers-beyond n i body ps d (omega arith)

for_peers-within :
    (n i : ℕ) (body : Peer → Peer × List Effect) (ps : List Peer) (d : Peer)
    → i < n
    → i < length ps
    → get_or (for_peers n body ps).0 i d ≡ (body (get_or ps i d)).0
unfolding for_peers
for_peers-within zero i body ps d h l = absurd (omega arith)
for_peers-within (suc n) i body [] d h l = absurd (omega arith)
for_peers-within (suc n) zero body (p ∷ ps) d h l = refl
for_peers-within (suc n) (suc i) body (p ∷ ps) d h l =
    for_peers-within n i body ps d (omega arith) (omega arith)

-- Removing a peer strands the peer of a later slot: when the count says that the peers are in the
-- slots up to `i` and slot `j` before `i` is removed, then slot `i`, which keeps its peer, gets nothing
-- from the loops for QUIC starts, sends, restarts and idle checks, whatever flags it has set.
pub remove_peer-strands :
    (i j : ℕ) (now : ℕ) (states : ℕ → JuiceState) (allocated : ℕ → Bool) (connected : ℕ → Option ℕ)
    (eng : Engine)
    → eng.peer_count ≡ i + 1
    → j < i
    → i < max_subscribers
    → let eng' = (remove_peer (pos j) eng).0 in
      (peer_at (process_quic_start allocated connected eng').0 i ≡ peer_at eng i)
      × (peer_at (process_continue_send eng').0 i ≡ peer_at eng i)
      × (peer_at (process_quic_restart states allocated connected eng').0 i ≡ peer_at eng i)
      × (peer_at (process_manual_idle_check now eng').0 i ≡ peer_at eng i)
unfolding remove_peer process_quic_start process_continue_send process_quic_restart
    process_manual_idle_check
remove_peer-strands i j now states allocated connected eng count before few =
    let ps = set eng.peers j (removed (peer_at eng j)) in
    let skipped = λ (body : Peer → Peer × List Effect).
      for_peers-beyond (eng.peer_count - 1) i body ps (fresh_peer i) (omega arith) in
    ground (
      arith,
      skipped (quic_start_peer eng.host allocated connected),
      skipped continue_send_peer,
      skipped (quic_restart_peer eng.host states allocated connected),
      skipped (idle_check_peer now),
      get_or-set_ne eng.peers j i (removed (peer_at eng j)) (fresh_peer i),
    )

-- A connected slot whose last ICE packet, if one came, is more than 60 seconds old.
abbrev pub is_overdue : ℕ → Peer → Bool
is_overdue now p =
    is_quic_connected p.state
    && is_set p.xqc_conn
    && not (p.last_ice_recv_us == 0)
    && ltb (p.last_ice_recv_us + 60 * 1000000) now

-- The idle check of a slot leaves it as it was, without a call, unless the slot is overdue; then its
-- connection is closed, and the slot has none and is back at the state of a connected ICE agent.
pub idle_check_peer-overdue :
    (now : ℕ) (p : Peer)
    → idle_check_peer now p ≡ (
        if is_overdue now p
        then (
          record p { xqc_conn = none; state = ice_connected; last_ice_recv_us = 0 },
          conn_close p.cid ∷ [],
        )
        else (p, []))
unfolding idle_check_peer
idle_check_peer-overdue now p = ground arith

-- After `process_manual_idle_check` of a publisher, no slot below the peer count is overdue.
pub process_manual_idle_check-fresh :
    (now i : ℕ) (eng : Engine)
    → is_publisher eng.role ≡ true
    → i < eng.peer_count
    → i < length eng.peers
    → is_overdue now (peer_at (process_manual_idle_check now eng).0 i) ≡ false
unfolding process_manual_idle_check
process_manual_idle_check-fresh now i eng publisher h l = ground (
  arith,
  for_peers-within eng.peer_count i (idle_check_peer now) eng.peers (fresh_peer i) h l,
  idle_check_peer-overdue now (peer_at eng i),
)

-- What one datagram of the receive queue makes the engine call.
abbrev pub delivery : List Peer → Datagram → List Effect
delivery ps d = elim d.agent_idx [
  | negsuc n ↦ []
  | pos i ↦
      if leb max_subscribers i
      then []
      else if ltb (rank (get_or ps i (fresh_peer i)).state) 2
      then []
      else packet_process i d.payload d.recv_time_us ∷ []
]

abbrev pub deliveries : List Peer → List Datagram → List Effect
deliveries ps [] = []
deliveries ps (d ∷ ds) = delivery ps d ++ deliveries ps ds

recv_loop-drains :
    (fuel : ℕ) (eng : Engine)
    → IsValid eng.recv_queue
    → eng.recv_queue.count < fuel
    → let (eng', es) = recv_loop fuel eng in
      (contents eng'.recv_queue ≡ [])
      × (es ≡ deliveries eng.peers (contents eng.recv_queue))
      × (eng'.peers ≡ eng.peers)
unfolding recv_loop packet_effect
recv_loop-drains zero eng v h = absurd (omega arith)
recv_loop-drains (suc fuel) eng v h = ground (
  arith,
  pop-Fifo_pop v,
  pop-count eng.recv_queue,
  length-contents eng.recv_queue,
  recv_loop-drains fuel (record eng { recv_queue = (pop eng.recv_queue).0 }) (pop-IsValid v),
)

finish_batch-ends :
    (es : List Effect)
    → finish_batch es ≡ (if length es == 0 then [] else es ++ (finish_recv ∷ main_logic ∷ []))
unfolding finish_batch
finish_batch-ends [] = refl
finish_batch-ends (e ∷ es) = ground arith

-- `process_recv_queue` empties a valid queue. Every datagram in it, oldest first, goes to xquic with
-- its bytes and time if its slot is in range and connecting at least; `xqc_engine_finish_recv` and the
-- main logic follow once, if there was any. The peers stay as they are.
pub process_recv_queue-drains :
    (eng : Engine)
    → IsValid eng.recv_queue
    → let (eng', es) = process_recv_queue eng in
      let ds = deliveries eng.peers (contents eng.recv_queue) in
      (contents eng'.recv_queue ≡ [])
      × (es ≡ (if length ds == 0 then [] else ds ++ (finish_recv ∷ main_logic ∷ [])))
      × (eng'.peers ≡ eng.peers)
unfolding process_recv_queue
process_recv_queue-drains eng v = ground (
  arith,
  recv_loop-drains (suc eng.recv_queue.count) eng v,
  finish_batch-ends (deliveries eng.peers (contents eng.recv_queue)),
)

-- The step that `wake` takes is a wait of `t` microseconds.
pub record Waits (now last wakeup : ℕ) (step : ℕ × Ending) (t : ℕ) : Type 0 where
  pub is_wait : step.1 ≡ sleeps t
  pub kept : step.0 ≡ wakeup
  pub positive : 0 < t
  pub bounded : t ≤ 2000
  pub not_past : wakeup ≡ 0 ⊎ now + t ≤ wakeup
  pub main_recent : now < last + 5000

-- `wake` runs the main logic when a wake-up is due or 5 ms have passed since it last ran, and clears a
-- wake-up only when it was due. Otherwise it waits, for 1 to 2000 microseconds, and never past a
-- wake-up that is set.
pub wake-never_late :
    (now last wakeup : ℕ)
    → last ≤ now
    → let (wakeup', end) = wake now last wakeup in
      ((end ≡ ran_main)
        × ((0 < wakeup × wakeup ≤ now × wakeup' ≡ 0)
            ⊎ (last + 5000 ≤ now × (wakeup ≡ 0 ⊎ now < wakeup) × wakeup' ≡ wakeup)))
      ⊎ ((t : ℕ) × Waits now last wakeup (wake now last wakeup) t)
unfolding wake
wake-never_late now last wakeup h =
    elim (Bool-cases ((ltb 0 wakeup && leb wakeup now) || leb 5000 (now - last))) [
      | inl e ↦ inl (ground arith)
      | inr e ↦ inr (elim (Bool-cases (ltb 0 wakeup && ltb (wakeup - now) 2000)) [
        | inl s ↦ (wakeup - now, ground arith)
        | inr s ↦ (2000, ground arith)
      ])
    ]
