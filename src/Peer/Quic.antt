-- ===== src/Peer/Quic.antt =====
-- The xquic connection callbacks and `p2p_peer_start_quic` of src/p2p/src/p2p_adapter.c.
pub mod Laws
use libp2pchannel.Prelude.{
  ℕ, ◌+◌, Bool, true, false, not, ◌&&◌, Option, none, some, List, [], ◌∷◌, ◌++◌, ltb, leb,
  if◌then◌else◌, negsuc,
}
use libp2pchannel.Adapter.{
  Role, JuiceState, rank, publisher, subscriber, ice_connected, quic_handshaking, quic_connected,
  failed, is_juice_alive,
}
use libp2pchannel.FrameQueue.{frame_queue_clear}
use libp2pchannel.Peer.{
  Peer, Host, Effect, Status, success, failure, on_quic_connected, on_quic_closed, session_destroy,
  configure_bitrate, set_pkt_filter, call_if, call_on, points_to, is_set,
}

-- `xqc_server_accept_cb`; `created` is the result of `xqc_moq_session_create`.
unfoldable pub server_accept : Option ℕ → Peer → Peer × Status × List Effect
server_accept none p = (record p { moq_session = none }, failure, [])
server_accept (some s) p = (record p { moq_session = some s }, success, configure_bitrate s ∷ [])

-- The part of `xqc_conn_create_notify_cb` behind the session's creation.
unfoldable pub adopt_conn : ℕ → ℕ → Peer → Peer
adopt_conn conn cid p = record p { last_ice_recv_us = 0; cid = some cid; xqc_conn = some conn }

-- `xqc_conn_create_notify_cb`; `created` is the result of `xqc_moq_session_create`, which is called
-- only without a session.
unfoldable pub conn_create_notify : Option ℕ → ℕ → ℕ → Peer → Peer × Status × List Effect
unfolding server_accept adopt_conn
conn_create_notify created conn cid p =
    if is_set p.moq_session
    then (adopt_conn conn cid p, success, set_pkt_filter conn ∷ [])
    else elim created [
      | none ↦ (p, failure, [])
      | some s ↦ (
        adopt_conn conn cid (record p { moq_session = some s }),
        success,
        configure_bitrate s ∷ set_pkt_filter conn ∷ [],
      )
    ]

-- The media state that a closed connection takes with it.
pub reset_moq : Peer → Peer
reset_moq p = record p {
  moq_session = none;
  video_track = none;
  audio_track = none;
  video_subscribe_id = negsuc 0;
  audio_subscribe_id = negsuc 0;
  datachannel_ready = false;
}

-- `xqc_conn_close_notify_cb` for the peer's own connection, with ICE alive.
pub closed_ice_alive : Role → Peer → Peer
closed_ice_alive publisher p = record p {
  state = ice_connected;
  xqc_conn = none;
  quic_restart_fail_count = p.quic_restart_fail_count + 1;
}
closed_ice_alive subscriber p =
    if ltb 3 (p.quic_restart_fail_count + 1)
    then record p {
      state = ice_connected;
      xqc_conn = none;
      needs_ice_restart = true;
      needs_quic_restart = false;
      quic_restart_fail_count = 0;
    }
    else record p {
      state = ice_connected;
      xqc_conn = none;
      needs_quic_restart = true;
      quic_restart_fail_count = p.quic_restart_fail_count + 1;
    }

-- The same with ICE dead.
pub closed_ice_dead : Peer → Peer
closed_ice_dead p = record p {
  state = failed;
  xqc_conn = none;
  needs_quic_restart = false;
  needs_ice_restart = true;
}

-- `ice_alive`; `states` is `juice_get_state`.
abbrev pub ice_alive : (ℕ → JuiceState) → Option ℕ → Bool
ice_alive states none = false
ice_alive states (some a) = is_juice_alive (states a)

-- `xqc_conn_close_notify_cb`
pub conn_close_notify : Host → (ℕ → JuiceState) → ℕ → Peer → Peer × List Effect
unfolding reset_moq closed_ice_alive closed_ice_dead
conn_close_notify host states conn p =
    let destroyed = call_on p.moq_session session_destroy in
    let q = reset_moq p in
    if points_to p.xqc_conn conn
    then (
      if ice_alive states p.ice_agent then closed_ice_alive host.role q else closed_ice_dead q,
      destroyed ++ call_if host.callbacks.quic_closed (on_quic_closed p.index),
    )
    else (q, destroyed)

-- `xqc_conn_handshake_finished_cb`
unfoldable pub handshake_finished : Host → ℕ → Peer → Peer × List Effect
handshake_finished host now p = (
  record p { state = quic_connected; last_ice_recv_us = now; quic_restart_fail_count = 0 },
  call_if host.callbacks.quic_connected (on_quic_connected p.index),
)

-- The end of `p2p_peer_start_quic`, for a subscriber: `connected` is the result of `xqc_connect`.
pub start_client : Option ℕ → Peer → Peer × Status
start_client none p = (record p { state = failed }, failure)
start_client (some cid) p = (record p { state = quic_handshaking; cid = some cid }, success)

pub start_role : Role → Option ℕ → Peer → Peer × Status
unfolding start_client
start_role publisher connected p = (p, success)
start_role subscriber connected p = start_client connected p

-- `p2p_peer_start_quic`; `allocated` says whether a missing user session can be allocated.
unfoldable pub start_quic : Host → Bool → Option ℕ → Peer → Peer × Status
unfolding reset_moq start_role
start_quic host allocated connected p =
    if not host.has_xqc_engine
    then (p, failure)
    else if leb 4 (rank p.state)
    then (p, success)
    else let q = reset_moq (record p { frame_queue = frame_queue_clear p.frame_queue }) in
      if not p.has_user_session && not allocated
      then (q, failure)
      else start_role host.role connected (record q { has_user_session = true })
