-- ===== src/Peer/Send/Control.antt =====
-- Control messages and subscriptions of src/p2p/src/p2p_adapter.c, from one peer's call to the other
-- peer's callback.
use libp2pchannel.Prelude.{
  ℕ, ◌^◌, ◌<◌, ◌≡◌, refl, ap, Bool, true, false, none, some, List, [], ◌∷◌, ◌++◌, arith,
  is_negative, pos, to_int64,
}
use libp2pchannel.Prelude.Text.{codes, bytes_eq}
use libp2pchannel.Adapter.{quic_connected, has_key_flag}
use libp2pchannel.Adapter.FrameType
use libp2pchannel.FrameQueue.{FrameEntry, datachannel, video_frame, write_of, Outlets}
use libp2pchannel.Peer.{Peer, Host, Effect, moq_write, request_keyframe, on_data_recv, is_set}
use libp2pchannel.Peer.Moq.{header_of_type, on_datachannel_msg, on_request_keyframe, on_subscribe}
use libp2pchannel.Peer.Send.{send_control, send_idr_request, outlets}

-- What the other peer `q` does when a call on the media session has reached it: a message comes to
-- its data channel callback, a keyframe request to its own callback.
abbrev pub received : Host → Peer → Effect → List Effect
received host q (moq_write session (datachannel message)) = on_datachannel_msg host message q
received host q (request_keyframe session id) = on_request_keyframe host q
received host q _ = []

abbrev pub all_received : Host → Peer → List Effect → List Effect
all_received host q [] = []
all_received host q (e ∷ es) = received host q e ++ all_received host q es

-- A control message of a connected peer with a media session reaches the other application as one
-- empty frame of its type, and the engine wakes up at once.
pub control_arrives :
    (other : Host) (now type session wakeup : ℕ) (written : Bool) (p q : Peer)
    → p.moq_session ≡ some session
    → p.state ≡ quic_connected
    → other.callbacks.data_recv ≡ true
    → let (wakeup', s, es) = send_control now written type p wakeup in
      (all_received other q es ≡ on_data_recv q.index (header_of_type type) none ∷ [])
      × (wakeup' ≡ now)
unfolding send_control on_datachannel_msg
control_arrives other now type session wakeup written p q m c d = ground arith

-- A request for a keyframe reaches the other application as one empty frame of the request's type,
-- whichever of the two ways `p2p_peer_send_idr_request` takes.
pub idr_request_arrives :
    (other : Host) (now session wakeup : ℕ) (requested written : Bool) (p q : Peer)
    → p.moq_session ≡ some session
    → p.state ≡ quic_connected
    → other.callbacks.data_recv ≡ true
    → all_received other q (send_idr_request now requested written p wakeup).2
      ≡ on_data_recv q.index (header_of_type FrameType.idr_req) none ∷ []
unfolding send_idr_request send_control on_datachannel_msg on_request_keyframe
idr_request_arrives other now session wakeup requested written p q m c d = ground arith

subscribed :
    (id session : ℕ) (p : Peer)
    → id < 2 ^ 63
    → p.moq_session ≡ some session
    → (on_subscribe id (some (codes "video")) p).0 ≡ record p { video_subscribe_id = pos id }
unfolding on_subscribe bytes_eq
subscribed id session p small m =
    let cast : to_int64 id ≡ pos id = ground arith in rw (m, cast) refl

write_of-video :
    (o : Outlets) (e : FrameEntry) (allocated : Bool)
    → e.type ≡ FrameType.video
    → is_negative o.video_subscribe_id ≡ false
    → o.has_video_track ≡ true
    → write_of o e allocated
      ≡ video_frame o.video_subscribe_id
          (has_key_flag e.flags)
          e.seq
          e.timestamp_us
          e.bytes
          e.data_len
        ∷ []
unfolding write_of
write_of-video o e allocated v n t = ground arith

-- After a subscription to the track `video` below 2^63, every queued video frame of a publisher that
-- has the track is written on just that subscription, with its key flag, number, time and bytes.
pub video_after_subscribe :
    (id session track : ℕ) (p : Peer) (e : FrameEntry) (allocated : Bool)
    → id < 2 ^ 63
    → p.moq_session ≡ some session
    → p.video_track ≡ some track
    → e.type ≡ FrameType.video
    → write_of (outlets (on_subscribe id (some (codes "video")) p).0) e allocated
      ≡ video_frame (pos id) (has_key_flag e.flags) e.seq e.timestamp_us e.bytes e.data_len ∷ []
video_after_subscribe id session track p e allocated small m t v =
    rw (subscribed id session p small m) (
      write_of-video (outlets (record p { video_subscribe_id = pos id })) e allocated v refl
        (ap is_set t))
