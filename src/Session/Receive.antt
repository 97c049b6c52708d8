-- ===== src/Session/Receive.antt =====
-- What arrives from a peer in src/p2p/src/p2pav.c: `internal_on_data_recv` around the reassembly. The
-- callbacks of the application are notices.
pub mod Laws
use libp2pchannel.Prelude.{
  ℕ, zero, suc, Bool, true, ◌&&◌, Option, none, some, List, [], ◌∷◌, ◌++◌, leb, ◌==◌, if◌then◌else◌,
  get_or, set,
}
use libp2pchannel.Adapter.{FrameHeader, has_key_flag}
use libp2pchannel.Adapter.FrameType
use libp2pchannel.Peer.{Peer, Effect}
use libp2pchannel.Peer.Send.{send_idr_request}
use libp2pchannel.Session.{
  Session, Channel, Notice, video_frame, audio_frame, data_message, keyframe_request, notices_of,
  notify_if, max_peers, fresh_intake,
}
use libp2pchannel.Session.Media.{World}
use libp2pchannel.Session.Reassembly.{Intake, Frame, receive}

-- The number of the first active channel to the peer of slot `i`, or 0.
unfoldable pub channel_of : ℕ → List Channel → ℕ
channel_of i [] = 0
channel_of i (c ∷ cs) =
    let rest = channel_of i cs in if c.active && c.peer_index == i then c.id else rest

-- The keyframe requests of one fragment.
unfoldable pub ask_peer : World → ℕ → Peer → ℕ → ℕ × List Effect
ask_peer w zero p wakeup = (wakeup, [])
ask_peer w (suc n) p wakeup =
    let (wakeup', st, es) =
      send_idr_request w.now (w.requested p.index) (w.written p.index) p wakeup in
    let (wakeup'', fs) = ask_peer w n p wakeup' in (wakeup'', es ++ fs)

-- The callback for a complete frame, if it is set, and the time of the first frame; `now` is read for it.
unfoldable pub dispatch : ℕ → Peer → Frame → Session → Session × List Notice
unfolding channel_of
dispatch now p f s =
    if f.type == FrameType.video && s.video_recv_cb
    then (
      if s.first_video_recvd then s else record s {
        timing = record s.timing { first_video_recv_us = now };
        first_video_recvd = true;
      },
      video_frame p.peer_id f.bytes f.timestamp_us (has_key_flag f.flags) ∷ [],
    )
    else if f.type == FrameType.audio && s.audio_recv_cb
    then (
      if s.first_audio_recvd then s else record s {
        timing = record s.timing { first_audio_recv_us = now };
        first_audio_recvd = true;
      },
      audio_frame p.peer_id f.bytes f.timestamp_us ∷ [],
    )
    else if f.type == FrameType.data_msg && s.data_recv_cb
    then (s, data_message p.peer_id (channel_of p.index s.data_channels) f.bytes ∷ [])
    else (s, [])

abbrev pub dispatch_some : ℕ → Peer → Option Frame → Session → Session × List Notice
dispatch_some now p none s = (s, [])
dispatch_some now p (some f) s = dispatch now p f s

abbrev pub intake_at : Session → ℕ → Intake
intake_at s i = get_or s.peer_states i (fresh_intake 0)

-- The clock of one call of `internal_on_data_recv`: the readings for the gap, for the incomplete frame and
-- for the first frame; and whether the copy of the frame has memory.
pub record Arrival : Type 0 where
  pub gap_now : ℕ
  pub incomplete_now : ℕ
  pub first_now : ℕ
  pub copy_allocated : Bool

-- `internal_on_data_recv` on a fragment whose payload is there.
unfoldable pub internal_on_data_recv :
    World → Arrival → Peer → FrameHeader → List ℕ → Session → Session × List Notice
unfolding ask_peer dispatch
internal_on_data_recv w a p hdr payload s =
    let (intake, asked, frame) =
      receive a.copy_allocated a.gap_now a.incomplete_now hdr payload (intake_at s p.index) in
    let (wakeup, es) = ask_peer w asked p s.engine.next_wakeup_us in
    let (s', ns) = dispatch_some a.first_now p frame (record s {
      peer_states = set s.peer_states p.index intake;
      engine = record s.engine { next_wakeup_us = wakeup };
    }) in
    if hdr.type == FrameType.idr_req
    then (s, notify_if s.keyframe_req_cb (keyframe_request p.peer_id))
    else if leb max_peers p.index
    then (s, [])
    else (s', notices_of es ++ ns)
