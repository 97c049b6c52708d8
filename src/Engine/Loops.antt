-- ===== src/Engine/Loops.antt =====
-- The loops of the engine thread of src/p2p/src/p2p_adapter.c over its peers.
use libp2pchannel.Prelude.{
  ℕ, zero, suc, ◌-◌, ◌*◌, Bool, true, false, not, ◌&&◌, ◌||◌, Option, none, some, List, [], ◌∷◌,
  ◌++◌, ltb, leb, ◌==◌, if◌then◌else◌, get_or, take, pos, negsuc,
}
use libp2pchannel.Adapter.{
  JuiceState, rank, ice_connected, is_quic_connected, is_ice_connected, is_publisher,
  is_juice_alive, max_subscribers,
}
use libp2pchannel.FrameQueue.{FrameEntry}
use libp2pchannel.PacketQueue.{Packet, pop}
use libp2pchannel.Peer.{
  Peer, Host, Effect, on_ice_restart_needed, conn_close, continue_send_by_conn, continue_send,
  packet_process, finish_recv, main_logic, call_if, call_on, is_set,
}
use libp2pchannel.Peer.Quic.{start_quic}
use libp2pchannel.Peer.Send.{flush_send_queue}
use libp2pchannel.Peer.{fresh_peer}
use libp2pchannel.Engine.{Engine}

-- `for (i = 0; i < n; i++)` over the peers: the body runs on the first `n` slots, in order.
unfoldable pub for_peers : ℕ → (Peer → Peer × List Effect) → List Peer → List Peer × List Effect
for_peers zero body ps = (ps, [])
for_peers (suc n) body [] = ([], [])
for_peers (suc n) body (p ∷ ps) =
    let (p', es) = body p in let (ps', fs) = for_peers n body ps in (p' ∷ ps', es ++ fs)

abbrev pub run_peers : ℕ → (Peer → Peer × List Effect) → Engine → Engine × List Effect
run_peers n body eng = let (ps, es) = for_peers n body eng.peers in (record eng { peers = ps }, es)

-- The body of `process_continue_send`
unfoldable pub continue_send_peer : Peer → Peer × List Effect
continue_send_peer p =
    if p.needs_continue_send
    then (
      record p { needs_continue_send = false },
      elim p.xqc_conn [
        | some c ↦ continue_send_by_conn c ∷ []
        | none ↦ call_on p.cid continue_send
      ],
    )
    else (p, [])

-- `process_continue_send`
unfoldable pub process_continue_send : Engine → Engine × List Effect
process_continue_send eng = run_peers eng.peer_count continue_send_peer eng

-- The body of `process_quic_start`; what the libraries answer depends on the peer's index.
unfoldable pub quic_start_peer : Host → (ℕ → Bool) → (ℕ → Option ℕ) → Peer → Peer × List Effect
quic_start_peer host allocated connected p =
    if not p.needs_quic_start
    then (p, [])
    else let q = record p { needs_quic_start = false } in
      if ltb (rank p.state) 3
      then (q, [])
      else ((start_quic host (allocated p.index) (connected p.index) q).0, [])

-- `process_quic_start`
unfoldable pub process_quic_start : (ℕ → Bool) → (ℕ → Option ℕ) → Engine → Engine × List Effect
process_quic_start allocated connected eng =
    run_peers eng.peer_count (quic_start_peer eng.host allocated connected) eng

-- `peer->ice_agent` is set, and neither connected nor completed.
abbrev pub ice_lost : (ℕ → JuiceState) → Option ℕ → Bool
ice_lost states none = false
ice_lost states (some a) = not (is_juice_alive (states a))

-- The body of `process_quic_restart`
unfoldable pub quic_restart_peer :
    Host → (ℕ → JuiceState) → (ℕ → Bool) → (ℕ → Option ℕ) → Peer → Peer × List Effect
quic_restart_peer host states allocated connected p =
    if p.needs_ice_restart
    then (
      record p { needs_ice_restart = false; needs_quic_restart = false },
      call_if host.callbacks.ice_restart_needed (on_ice_restart_needed p.index),
    )
    else if p.needs_quic_restart && is_ice_connected p.state
    then (if ice_lost states p.ice_agent
        then (record p { needs_quic_restart = false; needs_ice_restart = true }, [])
        else (
          (start_quic host (allocated p.index) (connected p.index)
              (record p { needs_quic_restart = false })).0,
          [],
        ))
    else (p, [])

-- `process_quic_restart`
unfoldable pub process_quic_restart :
    (ℕ → JuiceState) → (ℕ → Bool) → (ℕ → Option ℕ) → Engine → Engine × List Effect
process_quic_restart states allocated connected eng =
    run_peers eng.peer_count (quic_restart_peer eng.host states allocated connected) eng

-- `P2P_MANUAL_IDLE_TIMEOUT_US`
abbrev pub idle_timeout_us : ℕ
idle_timeout_us = 60 * 1000000

-- The body of `process_manual_idle_check`; the subtraction is made only at `last <= now`.
unfoldable pub idle_check_peer : ℕ → Peer → Peer × List Effect
idle_check_peer now p =
    if not (is_quic_connected p.state) || not (is_set p.xqc_conn)
    then (p, [])
    else if p.last_ice_recv_us == 0 || ltb now p.last_ice_recv_us
    then (p, [])
    else if ltb idle_timeout_us (now - p.last_ice_recv_us)
    then (
      record p { xqc_conn = none; state = ice_connected; last_ice_recv_us = 0 },
      conn_close p.cid ∷ [],
    )
    else (p, [])

-- `process_manual_idle_check`
unfoldable pub process_manual_idle_check : ℕ → Engine → Engine × List Effect
process_manual_idle_check now eng =
    if is_publisher eng.role then run_peers eng.peer_count (idle_check_peer now) eng else (eng, [])

-- The body of `process_frame_queues`
unfoldable pub frame_queue_peer : (FrameEntry → Bool) → Peer → Peer × List Effect
frame_queue_peer allocated p =
    if not (is_set p.moq_session) || not (is_quic_connected p.state)
    then (p, [])
    else if p.frame_queue.count == 0
    then (p, [])
    else flush_send_queue allocated p

-- `process_frame_queues`, over all the slots
unfoldable pub process_frame_queues : (FrameEntry → Bool) → Engine → Engine × List Effect
process_frame_queues allocated eng = run_peers max_subscribers (frame_queue_peer allocated) eng

-- The packet of one round of `process_recv_queue`, if it is handed on.
unfoldable pub packet_effect : List Peer → Packet → List Effect
packet_effect ps pkt = elim pkt.agent_idx [
  | negsuc n ↦ []
  | pos i ↦
      if leb max_subscribers i
      then []
      else if ltb (rank (get_or ps i (fresh_peer i)).state) 2
      then []
      else packet_process i (take pkt.size pkt.bytes) pkt.recv_time_us ∷ []
]

-- The loop of `process_recv_queue` on fuel. The packets handed to xquic may call back into the
-- engine; these calls are steps of their own.
unfoldable pub recv_loop : ℕ → Engine → Engine × List Effect
recv_loop zero eng = (eng, [])
recv_loop (suc fuel) eng =
    let (q, out) = pop eng.recv_queue in
    elim out [
      | none ↦ (eng, [])
      | some pkt ↦
          let (eng', es) = recv_loop fuel (record eng { recv_queue = q }) in
          (eng', packet_effect eng.peers pkt ++ es)
    ]

-- `if (batch > 0)` after the loop
unfoldable pub finish_batch : List Effect → List Effect
finish_batch [] = []
finish_batch (e ∷ es) = (e ∷ es) ++ (finish_recv ∷ main_logic ∷ [])

-- `process_recv_queue`: the fuel is one more than the packets held.
unfoldable pub process_recv_queue : Engine → Engine × List Effect
unfolding finish_batch
process_recv_queue eng =
    let (eng', es) = recv_loop (suc eng.recv_queue.count) eng in (eng', finish_batch es)
