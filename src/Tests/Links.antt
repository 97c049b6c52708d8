-- ===== src/Tests/Links.antt =====
-- The ICE, QUIC and sending operations of a peer at concrete inputs.
use libp2pchannel.Prelude.{◌≡◌, refl, true, false, some, none, [], ◌∷◌, arith}
use libp2pchannel.Adapter.{subscriber, JuiceState, ice_connected, quic_connected}
use libp2pchannel.Adapter.FrameType
use libp2pchannel.FrameQueue.{FrameEntry, empty_queue, datachannel}
use libp2pchannel.FrameQueue.Inv.{empty_queue-IsValid}
use libp2pchannel.Peer.{
  Peer, Callbacks, Host, fresh_peer, session_destroy, moq_write, on_data_recv, success,
}
use libp2pchannel.Peer.Quic.{conn_close_notify, reset_moq, start_quic}
use libp2pchannel.Peer.Quic.Laws.{
  conn_close_notify-restart, conn_close_notify-stale, failures, failures-escalate,
}
use libp2pchannel.Peer.Moq.{header_of_type, on_datachannel_msg}
use libp2pchannel.Peer.Send.{send_data_via_quic, flush_send_queue}
use libp2pchannel.Peer.Send.Laws.{data_message_arrives}

abbrev all_callbacks : Callbacks
all_callbacks = record {
  ice_state = true;
  ice_candidate = true;
  ice_gathering_done = true;
  quic_connected = true;
  quic_closed = true;
  data_recv = true;
  ice_restart_needed = true;
  bitrate_change = true;
}

abbrev pub viewer : Host
viewer = record { role = subscriber; callbacks = all_callbacks; has_xqc_engine = true }

-- A slot in use: agent 5, connection 6 and media session 7.
abbrev pub linked : Peer
linked = record (fresh_peer 1) {
  state = quic_connected;
  ice_agent = some 5;
  cid = some 6;
  xqc_conn = some 6;
  moq_session = some 7;
  has_user_session = true;
  datachannel_ready = true;
}

abbrev pub waiting : Peer
waiting = record (fresh_peer 1) { state = ice_connected; ice_agent = some 5 }

conn_close_notify-restart_example :
    let p' = (conn_close_notify viewer (λ a. JuiceState.completed) 6 linked).0 in
    (p'.needs_ice_restart ≡ false)
    × (p'.needs_quic_restart ≡ true)
    × (p'.xqc_conn ≡ none)
    × (p'.state ≡ ice_connected)
    × (p'.quic_restart_fail_count ≡ 1)
unfolding fresh_peer
conn_close_notify-restart_example =
    conn_close_notify-restart viewer (λ a. JuiceState.completed) 6 linked refl refl refl refl

conn_close_notify-stale_run :
    let (p', es) = conn_close_notify viewer (λ a. JuiceState.completed) 4 linked in
    (p' ≡ reset_moq linked)
    × (p'.xqc_conn ≡ some 6)
    × (p'.state ≡ quic_connected)
    × (p'.moq_session ≡ none)
    × (es ≡ session_destroy 7 ∷ [])
conn_close_notify-stale_run =
    conn_close_notify-stale viewer (λ a. JuiceState.completed) 4 6 7 linked refl (λ e. omega arith)
      refl

failures-escalate_run :
    ((failures viewer (λ a. JuiceState.completed) 4 waiting).needs_ice_restart ≡ true)
    × ((failures viewer (λ a. JuiceState.completed) 4 waiting).needs_quic_restart ≡ false)
unfolding fresh_peer
failures-escalate_run =
    failures-escalate viewer (λ a. JuiceState.completed) 3 waiting refl refl refl

started : (start_quic viewer true (some 8) waiting).1 ≡ success
unfolding start_quic fresh_peer
started = refl

data_message_arrives_example :
    let p' =
      (send_data_via_quic viewer 9000 FrameType.data_msg 0 1 80 (1 ∷ 2 ∷ []) 2 true linked 0).0 in
    ((flush_send_queue (λ e. true) p').1
      ≡ moq_write 7 (datachannel (FrameType.data_msg ∷ 1 ∷ 2 ∷ [])) ∷ [])
    × (on_datachannel_msg viewer (FrameType.data_msg ∷ 1 ∷ 2 ∷ []) linked
        ≡ on_data_recv 1
            (record (header_of_type FrameType.data_msg) { total_len = 2; frag_len = 2 })
            (some (1 ∷ 2 ∷ []))
          ∷ [])
unfolding fresh_peer empty_queue
data_message_arrives_example =
    data_message_arrives viewer viewer 9000 1 80 7 0 1 (2 ∷ []) linked linked empty_queue-IsValid
      refl refl refl refl refl (omega arith)

abbrev key_frame : FrameEntry
key_frame = record {
  type = FrameType.video;
  flags = 1;
  seq = 3;
  timestamp_us = 80;
  bytes = some (1 ∷ 2 ∷ []);
  data_len = 2;
}

abbrev filming : Peer
filming = record linked { video_track = some 9 }
