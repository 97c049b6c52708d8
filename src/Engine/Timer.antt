-- ===== src/Engine/Timer.antt =====
-- The wake-up time of the engine thread of src/p2p/src/p2p_adapter.c, and one round of
-- `engine_thread_func`.
use libp2pchannel.Prelude.{
  ℕ, ◌+◌, ◌-◌, ◌%◌, ◌^◌, min, Bool, ◌&&◌, ◌||◌, Option, List, [], ◌∷◌, ◌++◌, ltb, leb,
  if◌then◌else◌,
}
use libp2pchannel.Adapter.{JuiceState, max_subscribers}
use libp2pchannel.FrameQueue.{FrameEntry}
use libp2pchannel.Peer.{Effect, main_logic}
use libp2pchannel.Engine.{Engine}
use libp2pchannel.Engine.Peers.{deferred_removals}
use libp2pchannel.Engine.Loops.{
  process_recv_queue, process_quic_start, process_continue_send, process_manual_idle_check,
  process_quic_restart, process_frame_queues,
}

-- `xqc_set_event_timer_cb`
unfoldable pub set_event_timer : ℕ → ℕ → Engine → Engine
set_event_timer now wake_after eng = record eng { next_wakeup_us = (now + wake_after) % 2 ^ 64 }

-- What a round ends with: xquic's main logic, or a wait of so many microseconds.
pub data Ending : Type 0 where
  ran_main : Ending
  sleeps : ℕ → Ending

-- The end of a round at time `now`; `last` is `last_main_logic_us`, which is not later. The results
-- are the wake-up time and the end.
unfoldable pub wake : ℕ → ℕ → ℕ → ℕ × Ending
wake now last wakeup =
    let due = ltb 0 wakeup && leb wakeup now in
    if due || leb 5000 (now - last)
    then (if due then 0 else wakeup, ran_main)
    else (wakeup, sleeps (if ltb 0 wakeup && ltb now wakeup then min (wakeup - now) 2000 else 2000))

-- What the libraries answer during one round.
pub record Answers : Type 0 where
  pub states : ℕ → JuiceState
  pub allocated : ℕ → Bool
  pub connected : ℕ → Option ℕ
  pub message_allocated : FrameEntry → Bool

infixl 5 ◌then_run◌
abbrev ◌then_run◌ : Engine × List Effect → (Engine → Engine × List Effect) → Engine × List Effect
r then_run f = let (eng, es) = f r.0 in (eng, r.1 ++ es)

-- The work of one round of `engine_thread_func`, before it looks at the clock again.
unfoldable pub round : ℕ → Answers → Engine → Engine × List Effect
round now a eng =
    process_recv_queue eng
    then_run process_quic_start a.allocated a.connected
    then_run process_continue_send
    then_run process_manual_idle_check now
    then_run process_quic_restart a.states a.allocated a.connected
    then_run process_frame_queues a.message_allocated
    then_run deferred_removals 0 max_subscribers

-- One whole round. The time `last` becomes `now` when the main logic runs.
unfoldable pub thread_round : ℕ → ℕ → ℕ → Answers → Engine → Engine × ℕ × List Effect
unfolding round wake
thread_round idle_now now last a eng =
    let (eng', es) = round idle_now a eng in
    let (wakeup, end) = wake now last eng'.next_wakeup_us in
    let eng'' = record eng' { next_wakeup_us = wakeup } in
    elim end [ ran_main ↦ (eng'', now, es ++ (main_logic ∷ [])) | sleeps t ↦ (eng'', last, es) ]
