-- ===== src/Peer/Quic/Laws.antt =====
-- The life of a peer's QUIC connection in src/p2p/src/p2p_adapter.c: closing, retrying, escalating.
use libp2pchannel.Prelude.{
  ℕ, zero, suc, ◌+◌, ◌%◌, ◌<◌, ◌≡◌, refl, ap, ◌≢◌, ◌⊎◌, Bool, true, false, not, ◌||◌, Option, none,
  some, [], ◌∷◌, arith, leb, ◌==◌, if◌then◌else◌,
}
use libp2pchannel.Adapter.{
  JuiceState, rank, publisher, subscriber, ice_connected, quic_handshaking, failed,
}
use libp2pchannel.FrameQueue.Inv.{IsValid}
use libp2pchannel.FrameQueue.Refine.{contents}
use libp2pchannel.FrameQueue.Flush.{frame_queue_clear-empty}
use libp2pchannel.Peer.{Peer, Host, success, session_destroy, is_set}
use libp2pchannel.Peer.Quic.{
  reset_moq, ice_alive, adopt_conn, conn_close_notify, start_client, start_role, start_quic,
}

-- A subscriber's own connection closes while nothing else was to be restarted: exactly one of the two
-- restarts is asked for. It is the ICE restart just if ICE is dead, or this is at least the fourth
-- failure in a row. The count of failures stays if ICE is dead, starts again at 0 on the fourth, and is one
-- more otherwise. The state is ICE_CONNECTED with ICE alive and FAILED with ICE dead.
pub conn_close_notify-restart :
    (host : Host) (states : ℕ → JuiceState) (conn : ℕ) (p : Peer)
    → host.role ≡ subscriber
    → p.xqc_conn ≡ some conn
    → p.needs_quic_restart ≡ false
    → p.needs_ice_restart ≡ false
    → let p' = (conn_close_notify host states conn p).0 in
      let escalate = not (ice_alive states p.ice_agent) || leb 3 p.quic_restart_fail_count in
      (p'.needs_ice_restart ≡ escalate)
      × (p'.needs_quic_restart ≡ not escalate)
      × (p'.xqc_conn ≡ none)
      × (p'.state ≡ (if ice_alive states p.ice_agent then ice_connected else failed))
      × (p'.quic_restart_fail_count ≡ (
          if not (ice_alive states p.ice_agent)
          then p.quic_restart_fail_count
          else if leb 3 p.quic_restart_fail_count
          then 0
          else p.quic_restart_fail_count + 1))
unfolding conn_close_notify
conn_close_notify-restart host states conn p r own nq ni = ground arith

-- The connection that is closed is not the peer's own: its state, its connection and its restarts stay
-- as they are, but the media session of the connection in use is destroyed with its tracks and
-- subscriptions.
pub conn_close_notify-stale :
    (host : Host) (states : ℕ → JuiceState) (conn own session : ℕ) (p : Peer)
    → p.xqc_conn ≡ some own
    → own ≢ conn
    → p.moq_session ≡ some session
    → let (p', es) = conn_close_notify host states conn p in
      (p' ≡ reset_moq p)
      × (p'.xqc_conn ≡ some own)
      × (p'.state ≡ p.state)
      × (p'.moq_session ≡ none)
      × (es ≡ session_destroy session ∷ [])
unfolding conn_close_notify
conn_close_notify-stale host states conn own session p e ne s = ground arith

-- A connection is adopted and closed again, with no handshake in between, `n` times.
pub failures : Host → (ℕ → JuiceState) → ℕ → Peer → Peer
failures host states zero p = p
failures host states (suc n) p =
    (conn_close_notify host states n (adopt_conn n n (failures host states n p))).0

-- What stays put while a subscriber with live ICE keeps failing.
failures-keep :
    (host : Host) (states : ℕ → JuiceState) (n : ℕ) (p : Peer)
    → host.role ≡ subscriber
    → ice_alive states p.ice_agent ≡ true
    → p.quic_restart_fail_count ≡ 0
    → let p' = failures host states n p in
      (p'.ice_agent ≡ p.ice_agent) × (p'.quic_restart_fail_count ≡ n % 4)
unfolding failures conn_close_notify adopt_conn
failures-keep host states zero p r a c = (refl, omega arith)
failures-keep host states (suc n) p r a c =
    let ih = failures-keep host states n p r a c in ground (arith, ih, ap (ice_alive states) ih.0)

-- Of a subscriber's failed connections in a row, with ICE alive, every fourth asks for an ICE restart
-- and clears the request for a QUIC restart; each of the others asks for a QUIC restart.
pub failures-escalate :
    (host : Host) (states : ℕ → JuiceState) (n : ℕ) (p : Peer)
    → host.role ≡ subscriber
    → ice_alive states p.ice_agent ≡ true
    → p.quic_restart_fail_count ≡ 0
    → let p' = failures host states (suc n) p in
      if (suc n) % 4 == 0
      then (p'.needs_ice_restart ≡ true) × (p'.needs_quic_restart ≡ false)
      else p'.needs_quic_restart ≡ true
unfolding failures conn_close_notify adopt_conn
failures-escalate host states n p r a c =
    let ih = failures-keep host states n p r a c in ground (arith, ih, ap (ice_alive states) ih.0)

-- A successful `p2p_peer_start_quic` below QUIC_HANDSHAKING leaves no media state and no queued frame
-- of the old connection. A publisher's state stays; a subscriber handshakes on the id that xquic gave.
pub start_quic-resets :
    (host : Host) (allocated : Bool) (connected : Option ℕ) (p : Peer)
    → IsValid p.frame_queue
    → rank p.state < 4
    → (start_quic host allocated connected p).1 ≡ success
    → let p' = (start_quic host allocated connected p).0 in
      (p'.moq_session ≡ none)
      × (p'.datachannel_ready ≡ false)
      × (contents p'.frame_queue ≡ [])
      × (p'.has_user_session ≡ true)
      × (((host.role ≡ publisher) × (p'.state ≡ p.state))
          ⊎ ((host.role ≡ subscriber)
              × (p'.state ≡ quic_handshaking)
              × (is_set p'.cid ≡ true)
              × (p'.cid ≡ connected)))
unfolding start_quic start_role start_client
start_quic-resets host allocated connected p v h e = ground (arith, frame_queue_clear-empty v)

-- Once a subscriber's start has succeeded, another start changes nothing, whatever xquic would answer.
pub start_quic_twice :
    (host : Host) (allocated allocated' : Bool) (connected connected' : Option ℕ) (p : Peer)
    → host.role ≡ subscriber
    → (start_quic host allocated connected p).1 ≡ success
    → let p' = (start_quic host allocated connected p).0 in
      start_quic host allocated' connected' p' ≡ (p', success)
unfolding start_quic start_role start_client
start_quic_twice host allocated allocated' connected connected' p r h = ground arith
