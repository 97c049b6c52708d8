-- ===== src/Peer/Ice/Laws.antt =====
-- What the ICE callbacks of src/p2p/src/p2p_adapter.c do to a peer and to the engine's wake-up time.
use libp2pchannel.Prelude.{ℕ, ◌+◌, ◌≤◌, ◌<◌, ◌≡◌, ◌⊎◌, Bool, true, false, ◌||◌, arith}
use libp2pchannel.Adapter.{JuiceState, rank, is_juice_alive}
use libp2pchannel.Peer.{Peer, Host}
use libp2pchannel.Peer.Ice.{schedule_continue_send, switch_state, ice_on_state_changed}

-- The engine is to wake up within 5 ms, and no later than it was to.
abbrev pub WakesSoon : ℕ → ℕ → ℕ → Type 0
WakesSoon now before after = (0 < after) × (after ≤ now + 5000) × ((before ≡ 0) ⊎ (after ≤ before))

abbrev pub is_completed : JuiceState → Bool
is_completed JuiceState.completed = true
is_completed _ = false

-- When libjuice reports a connection, connected or completed, the peer's state never falls and is at
-- least ICE_CONNECTED, sending is to continue, and the engine wakes up within 5 ms and no later than
-- planned. QUIC is to be started just if the connection is completed or it was to
-- be started before.
pub connected-raises :
    (host : Host) (now : ℕ) (js : JuiceState) (p : Peer) (wakeup : ℕ)
    → is_juice_alive js ≡ true
    → let (p', wakeup', es) = ice_on_state_changed host now js p wakeup in
      (rank p.state ≤ rank p'.state)
      × (3 ≤ rank p'.state)
      × (p'.needs_continue_send ≡ true)
      × WakesSoon now wakeup wakeup'
      × (p'.needs_quic_start ≡ (is_completed js || p.needs_quic_start))
unfolding ice_on_state_changed switch_state schedule_continue_send
connected-raises host now js p wakeup h = ground arith
