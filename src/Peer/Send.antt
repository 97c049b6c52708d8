-- ===== src/Peer/Send.antt =====
-- The sending half of src/p2p/src/p2p_adapter.c: frames to the queue, the queue to the session, and
-- control messages over the data channel. `wakeup` is the engine's `next_wakeup_us`.
pub mod Laws
pub mod Control
use libp2pchannel.Prelude.{
  ℕ, Bool, not, ◌||◌, none, some, List, [], ◌∷◌, map, ltb, leb, if◌then◌else◌, is_negative,
}
use libp2pchannel.Adapter.{rank, is_quic_connected}
use libp2pchannel.Adapter.FrameType
use libp2pchannel.FrameQueue.{FrameQueue, FrameEntry, Outlets, datachannel, frame_queue_push, flush}
use libp2pchannel.FrameQueue
use libp2pchannel.Peer.{
  Peer, Host, Effect, Status, success, failure, moq_write, request_keyframe, is_set,
}

status_of : FrameQueue.Status → Status
status_of FrameQueue.success = success
status_of FrameQueue.failure = failure

-- `p2p_peer_send_data_via_quic`
pub send_data_via_quic : Host → ℕ → ℕ → ℕ → ℕ → ℕ → List ℕ → ℕ → Bool → Peer → ℕ → Peer × ℕ × Status
unfolding status_of
send_data_via_quic host now type flags seq timestamp_us payload payload_len allocated p wakeup =
    let (q, s) =
      frame_queue_push p.frame_queue p.state type flags seq timestamp_us payload payload_len
        allocated in
    if not (is_quic_connected p.state) then (p, wakeup, failure) else elim s [
      | FrameQueue.failure ↦ (record p { frame_queue = q }, wakeup, failure)
      | FrameQueue.success ↦
          (record p { frame_queue = q }, if host.has_xqc_engine then now else wakeup, success)
    ]

-- What the flush reads of the peer.
abbrev pub outlets : Peer → Outlets
outlets p = record {
  video_subscribe_id = p.video_subscribe_id;
  audio_subscribe_id = p.audio_subscribe_id;
  has_video_track = is_set p.video_track;
  has_audio_track = is_set p.audio_track;
  datachannel_ready = p.datachannel_ready;
}

-- `p2p_peer_flush_send_queue`; without a session it returns -1, which the engine ignores.
pub flush_send_queue : (FrameEntry → Bool) → Peer → Peer × List Effect
flush_send_queue allocated p = elim p.moq_session [
  | none ↦ (p, [])
  | some session ↦
      let (q, ws) = flush (outlets p) allocated p.frame_queue in
      (record p { frame_queue = q }, map (λ w. moq_write session w) ws)
]

-- `p2p_peer_send_control_datachannel`; `written` says whether `xqc_moq_write_datachannel` succeeds.
-- The engine is woken up at once.
unfoldable pub send_control : ℕ → Bool → ℕ → Peer → ℕ → ℕ × Status × List Effect
send_control now written type p wakeup = elim p.moq_session [
  | none ↦ (wakeup, failure, [])
  | some session ↦ if ltb (rank p.state) 5 || leb 6 (rank p.state) then (wakeup, failure, []) else (
    now,
    if written then success else failure,
    moq_write session (datachannel (type ∷ [])) ∷ [],
  )
]

-- `p2p_peer_send_idr_request`; `requested` says whether `xqc_moq_request_keyframe` succeeds.
unfoldable pub send_idr_request : ℕ → Bool → Bool → Peer → ℕ → ℕ × Status × List Effect
unfolding send_control
send_idr_request now requested written p wakeup = elim p.moq_session [
  | none ↦ (wakeup, failure, [])
  | some session ↦
      if not (is_negative p.video_subscribe_id)
      then (
        wakeup,
        if requested then success else failure,
        request_keyframe session p.video_subscribe_id ∷ [],
      )
      else send_control now written FrameType.idr_req p wakeup
]

-- `p2p_peer_send_video_stop` and its four companions
unfoldable pub send_video_stop : ℕ → Bool → Peer → ℕ → ℕ × Status × List Effect
send_video_stop now written p wakeup = send_control now written FrameType.video_stop p wakeup

unfoldable pub send_video_start : ℕ → Bool → Peer → ℕ → ℕ × Status × List Effect
send_video_start now written p wakeup = send_control now written FrameType.video_start p wakeup

unfoldable pub send_audio_stop : ℕ → Bool → Peer → ℕ → ℕ × Status × List Effect
send_audio_stop now written p wakeup = send_control now written FrameType.audio_stop p wakeup

unfoldable pub send_audio_start : ℕ → Bool → Peer → ℕ → ℕ × Status × List Effect
send_audio_start now written p wakeup = send_control now written FrameType.audio_start p wakeup

unfoldable pub send_ping : ℕ → Bool → Peer → ℕ → ℕ × Status × List Effect
send_ping now written p wakeup = send_control now written FrameType.ping p wakeup
