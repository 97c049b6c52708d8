-- ===== src/Peer/Ice.antt =====
-- The ICE callbacks of src/p2p/src/p2p_adapter.c. `wakeup` is the engine's `next_wakeup_us`, and
-- `now` the clock.
pub mod Laws
use libp2pchannel.Prelude.{
  ℕ, ◌+◌, Bool, true, ◌||◌, Option, none, some, List, ltb, ◌==◌, if◌then◌else◌,
}
use libp2pchannel.Adapter.{
  PeerState, JuiceState, rank, ice_gathering, ice_connecting, ice_connected, failed, closed,
  map_juice_state,
}
use libp2pchannel.Peer.{
  Peer, Host, Effect, on_ice_state, on_ice_candidate, on_ice_gathering_done, call_if,
}

-- `schedule_continue_send`
pub schedule_continue_send : ℕ → Peer → ℕ → Peer × ℕ
schedule_continue_send now p wakeup =
    let retry_at = now + 5000 in
    (
      record p { needs_continue_send = true },
      if wakeup == 0 || ltb retry_at wakeup then retry_at else wakeup,
    )

-- `if (peer->state < P2P_PEER_STATE_ICE_CONNECTED) peer->state = P2P_PEER_STATE_ICE_CONNECTED;`
abbrev pub raise : PeerState → PeerState
raise s = if ltb (rank s) 3 then ice_connected else s

-- The `switch` of `ice_on_state_changed`
pub switch_state : ℕ → JuiceState → Peer → ℕ → Peer × ℕ
switch_state now JuiceState.gathering p wakeup = (record p { state = ice_gathering }, wakeup)
switch_state now JuiceState.connecting p wakeup = (record p { state = ice_connecting }, wakeup)
switch_state now JuiceState.connected p wakeup =
    schedule_continue_send now (record p { state = raise p.state }) wakeup
switch_state now JuiceState.completed p wakeup =
    schedule_continue_send now (record p { state = raise p.state; needs_quic_start = true }) wakeup
switch_state now JuiceState.failed p wakeup = (record p { state = failed }, wakeup)
switch_state now JuiceState.disconnected p wakeup = (record p { state = closed }, wakeup)
switch_state now JuiceState.unknown p wakeup = (p, wakeup)

-- `ice_on_state_changed`
pub ice_on_state_changed : Host → ℕ → JuiceState → Peer → ℕ → Peer × ℕ × List Effect
ice_on_state_changed host now js p wakeup =
    let (p', wakeup') = switch_state now js p wakeup in
    (p', wakeup', call_if host.callbacks.ice_state (on_ice_state p.index (map_juice_state js)))

-- `ice_on_candidate`
unfoldable pub ice_on_candidate : Host → List ℕ → Peer → List Effect
ice_on_candidate host sdp p = call_if host.callbacks.ice_candidate (on_ice_candidate p.index sdp)

-- `ice_on_gathering_done`
unfoldable pub ice_on_gathering_done : Host → Peer → List Effect
ice_on_gathering_done host p =
    call_if host.callbacks.ice_gathering_done (on_ice_gathering_done p.index)

-- `xqc_write_socket_cb` and `xqc_pkt_filter_cb`: `some size` for the bytes taken, `none` for
-- XQC_SOCKET_EAGAIN; `sent` says whether `juice_send` succeeds on the peer's agent.
unfoldable pub write_socket : ℕ → (ℕ → Bool) → ℕ → Peer → ℕ → Peer × ℕ × Option ℕ
write_socket now sent size p wakeup = elim p.ice_agent [
  | none ↦ (p, wakeup, none)
  | some a ↦
      let (p', wakeup') = schedule_continue_send now p wakeup in
      if sent a then (p, wakeup, some size) else (p', wakeup', none)
]
