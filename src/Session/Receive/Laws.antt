-- ===== src/Session/Receive/Laws.antt =====
-- From a peer's whole frame to the application's callback, in src/p2p/src/p2pav.c.
use libp2pchannel.Prelude.{
  ℕ, ◌≤◌, ◌<◌, ◌≡◌, refl, sym, ap, ap₂, subst, inl, inr, not, ◌||◌, ltb, leb, ◌∷◌, append-nil,
  is_negative, Option-cases, ◌∙◌, ◌≢◌, ◌⊎◌, Bool, true, false, Option, none, some, List, [], ◌++◌,
  arith, ◌==◌, if◌then◌else◌, length, get_or, set, get_or-set_self, get_or-set_ne,
}
use libp2pchannel.Adapter.{FrameHeader, has_key_flag, rank, is_quic_connected, PeerState}
use libp2pchannel.Adapter.FrameType
use libp2pchannel.Peer.{Peer, Effect, request_keyframe, moq_write}
use libp2pchannel.Peer.Send.{send_control, send_idr_request}
use libp2pchannel.FrameQueue.{datachannel}
use libp2pchannel.Session.{
  Session, Notice, video_frame, audio_frame, data_message, notices_of, notify_if, max_peers,
  fresh_intake,
}
use libp2pchannel.Session.Media.{World}
use libp2pchannel.Session.Reassembly.{Intake, Frame, receive}
use libp2pchannel.Session.Reassembly.Laws.{fragment_header}
use libp2pchannel.Session.Reassembly.Receive.{
  IsIdle, room, is_held_back, is_asked_for, receive-whole,
}
use libp2pchannel.Session.Receive.{
  channel_of, ask_peer, dispatch, dispatch_some, intake_at, Arrival, internal_on_data_recv,
}

-- What the application is told of a complete frame of a peer.
abbrev pub told : Session → Peer → Frame → List Notice
told s p f =
    if f.type == FrameType.video
    then notify_if s.video_recv_cb
        (video_frame p.peer_id f.bytes f.timestamp_us (has_key_flag f.flags))
    else if f.type == FrameType.audio
    then notify_if s.audio_recv_cb (audio_frame p.peer_id f.bytes f.timestamp_us)
    else notify_if s.data_recv_cb
        (data_message p.peer_id (channel_of p.index s.data_channels) f.bytes)

dispatch-told :
    (now : ℕ) (p : Peer) (f : Frame) (s : Session)
    → (f.type ≡ FrameType.video) ⊎ (f.type ≡ FrameType.audio) ⊎ (f.type ≡ FrameType.data_msg)
    → let (s', ns) = dispatch now p f s in (ns ≡ told s p f) × (s'.peer_states ≡ s.peer_states)
unfolding dispatch
dispatch-told now p f s k = ground arith

dispatch_some-told :
    (now : ℕ) (p : Peer) (f : Frame) (held : Bool) (frame : Option Frame) (s : Session)
    → (f.type ≡ FrameType.video) ⊎ (f.type ≡ FrameType.audio) ⊎ (f.type ≡ FrameType.data_msg)
    → frame ≡ (if held then none else some f)
    → let (s', ns) = dispatch_some now p frame s in
      (ns ≡ (if held then [] else told s p f)) × (s'.peer_states ≡ s.peer_states)
dispatch_some-told now p f true frame s k e = rw e (refl, refl)
dispatch_some-told now p f false frame s k e = rw e (dispatch-told now p f s k)

-- The request for a keyframe to a peer: none without a media session, over the video subscription if the
-- peer has one, else over the data channel of a peer that is QUIC connected.
abbrev pub requests : Peer → List Effect
requests p = elim p.moq_session [
  | none ↦ []
  | some session ↦
      if not (is_negative p.video_subscribe_id)
      then request_keyframe session p.video_subscribe_id ∷ []
      else if is_quic_connected p.state
      then moq_write session (datachannel (FrameType.idr_req ∷ [])) ∷ []
      else []
]

state_sends : (st : PeerState) → (ltb (rank st) 5 || leb 6 (rank st)) ≡ not (is_quic_connected st)
state_sends PeerState.idle = refl
state_sends PeerState.ice_gathering = refl
state_sends PeerState.ice_connecting = refl
state_sends PeerState.ice_connected = refl
state_sends PeerState.quic_handshaking = refl
state_sends PeerState.quic_connected = refl
state_sends PeerState.failed = refl
state_sends PeerState.closed = refl

send_control-connected :
    (now : ℕ) (written : Bool) (p : Peer) (session wakeup : ℕ)
    → p.moq_session ≡ some session
    → (send_control now written FrameType.idr_req p wakeup).2 ≡ (
        if is_quic_connected p.state
        then moq_write session (datachannel (FrameType.idr_req ∷ [])) ∷ []
        else [])
unfolding send_control
send_control-connected now written p session wakeup m = rw (m, state_sends p.state) (ground arith)

send_idr_request-requests :
    (now : ℕ) (requested written : Bool) (p : Peer) (wakeup : ℕ)
    → (send_idr_request now requested written p wakeup).2 ≡ requests p
unfolding send_idr_request
send_idr_request-requests now requested written p wakeup = elim (Option-cases p.moq_session) [
  | inl m ↦ rw m refl
  | inr (session, m) ↦ rw m (ground (arith, send_control-connected now written p session wakeup m))
]

ask_peer-requests :
    (w : World) (asks : Bool) (p : Peer) (wakeup : ℕ)
    → (ask_peer w (if asks then 1 else 0) p wakeup).1 ≡ (if asks then requests p else [])
unfolding ask_peer
ask_peer-requests w false p wakeup = refl
ask_peer-requests w true p wakeup =
    append-nil _
    ∙ send_idr_request-requests w.now (w.requested p.index) (w.written p.index) p wakeup

-- The session and the requests before the dispatch.
abbrev taken : World → Peer → Intake → ℕ → Session → Session
taken w p intake asked s = record s {
  peer_states = set s.peer_states p.index intake;
  engine = record s.engine { next_wakeup_us = (ask_peer w asked p s.engine.next_wakeup_us).0 };
}

internal_on_data_recv-media :
    (w : World) (a : Arrival) (p : Peer) (hdr : FrameHeader) (payload : List ℕ) (s : Session)
    → (hdr.type == FrameType.idr_req) ≡ false
    → p.index < max_peers
    → let (intake, asked, frame) =
        receive a.copy_allocated a.gap_now a.incomplete_now hdr payload (intake_at s p.index) in
      let (s', ns) = dispatch_some a.first_now p frame (taken w p intake asked s) in
      internal_on_data_recv w a p hdr payload s
      ≡ (s', notices_of (ask_peer w asked p s.engine.next_wakeup_us).1 ++ ns)
unfolding internal_on_data_recv
internal_on_data_recv-media w a p hdr payload s t lt = ground arith

-- `internal_on_data_recv` on a whole frame of at least one byte, of video, audio or data, that fits the
-- buffer of an idle peer: a keyframe is asked for once just if it is a video frame whose number shows a
-- gap, at least 200 ms after the last request, in the way that the peer has for it; then the application's
-- callback for its type, if it is set, gets just its bytes, unless it is held back for a keyframe. The peer is
-- idle again, and no other peer's buffers change. Memory for the copy is there.
pub internal_on_data_recv-whole :
    (w : World) (a : Arrival) (p : Peer) (f : Frame) (seq : ℕ) (s : Session)
    → IsIdle (intake_at s p.index)
    → (f.type ≡ FrameType.video) ⊎ (f.type ≡ FrameType.audio) ⊎ (f.type ≡ FrameType.data_msg)
    → 0 < length f.bytes
    → length f.bytes ≤ room f.type (intake_at s p.index)
    → p.index < max_peers
    → length s.peer_states ≡ max_peers
    → a.copy_allocated ≡ true
    → let hdr = fragment_header f seq 0 f.bytes in
      let (s', ns) = internal_on_data_recv w a p hdr f.bytes s in
      (ns
        ≡ notices_of (if is_asked_for a.gap_now seq f (intake_at s p.index) then requests p else [])
          ++ (if is_held_back a.gap_now seq f (intake_at s p.index) then [] else told s p f))
      × IsIdle (intake_at s' p.index)
      × ((j : ℕ) → p.index ≢ j → intake_at s' j ≡ intake_at s j)
internal_on_data_recv-whole w a p f seq s v k some_bytes fits lt ten memory =
    let hdr = fragment_header f seq 0 f.bytes in
    let got =
      λ (m : Bool). receive m a.gap_now a.incomplete_now hdr f.bytes (intake_at s p.index) in
    let out = got a.copy_allocated in
    let held = is_held_back a.gap_now seq f (intake_at s p.index) in
    let asks = is_asked_for a.gap_now seq f (intake_at s p.index) in
    let (idle, frame, asked) =
      subst
        (λ m.
          IsIdle (got m).0
          × ((got m).2 ≡ (if held then none else some f))
          × ((got m).1 ≡ (if asks then 1 else 0)))
        (sym memory) (receive-whole a.gap_now a.incomplete_now seq f v k some_bytes fits) in
    let (ns, kept) =
      dispatch_some-told a.first_now p f held out.2 (taken w p out.0 out.1 s) k frame in
    let intakes = λ (j : ℕ). ap (λ is. get_or is j (fresh_intake 0)) kept in
    rw (internal_on_data_recv-media w a p hdr f.bytes s (ground arith) lt) (
      ap₂ (λ es ms. notices_of es ++ ms)
          (ap (λ n. (ask_peer w n p s.engine.next_wakeup_us).1) asked
            ∙ ask_peer-requests w asks p s.engine.next_wakeup_us)
          ns,
      subst IsIdle
          (sym (
            intakes p.index
            ∙ get_or-set_self s.peer_states p.index out.0 (fresh_intake 0) (omega arith)))
          idle,
      λ j ne. intakes j ∙ get_or-set_ne s.peer_states p.index j out.0 (fresh_intake 0) ne,
    )
