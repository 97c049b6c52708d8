-- ===== src/Publisher/Sends.antt =====
-- What the publisher of src/p2p/src/p2p_publisher.c sends, against the session of src/p2p/src/p2pav.c.
use libp2pchannel.Prelude.{
  ℕ, suc, ◌%◌, ◌^◌, ◌<◌, ◌≡◌, refl, Bool, true, false, ◌&&◌, some, List, [], ◌∷◌, arith, ltb, leb,
  if◌then◌else◌, length,
}
use libp2pchannel.Adapter.{PeerState, rank, is_quic_connected}
use libp2pchannel.Adapter.FrameType
use libp2pchannel.Peer.{Peer, Host}
use libp2pchannel.Session.{Session}
use libp2pchannel.Session.Media.{
  World, Outgoing, send_to_peer, send_to_peers, VideoFrame, AudioFrame, video_send, audio_send,
  send_picture,
}
use libp2pchannel.Publisher.Media.{
  Numbers, publish_to, publish, p2p_publisher_send_video, p2p_publisher_send_audio,
}
use libp2pchannel.Publisher.{Publisher}

state_sends : (st : PeerState) → is_quic_connected st ≡ (leb 5 (rank st) && ltb (rank st) 6)
state_sends PeerState.idle = refl
state_sends PeerState.ice_gathering = refl
state_sends PeerState.ice_connecting = refl
state_sends PeerState.ice_connected = refl
state_sends PeerState.quic_handshaking = refl
state_sends PeerState.quic_connected = refl
state_sends PeerState.failed = refl
state_sends PeerState.closed = refl

publish_to-send_to_peer :
    (host : Host) (w : World) (out : Outgoing) (p : Peer) (wakeup : ℕ)
    → publish_to host w out p wakeup ≡ send_to_peer host w out p wakeup
unfolding publish_to send_to_peer
publish_to-send_to_peer host w out p wakeup = ground (arith, state_sends p.state)

publish-send_to_peers :
    (host : Host) (w : World) (out : Outgoing) (ps : List Peer) (wakeup : ℕ)
    → publish host w out ps wakeup ≡ send_to_peers host w out ps wakeup
unfolding publish send_to_peers
publish-send_to_peers host w out [] wakeup = refl
publish-send_to_peers host w out (p ∷ ps) wakeup =
    rw
      (
        publish_to-send_to_peer host w out p wakeup,
        publish-send_to_peers host w out ps (send_to_peer host w out p wakeup).1,
      )
      refl

-- A publisher sends just what a session does that runs, is not muted and has the same engine and number: a
-- picture of at least one byte and less than 4 GiB leaves both with the same engine, the queues of all peers and the time of the
-- wake-up included, and with the same next number.
pub p2p_publisher_send_video-video_send :
    (w : World) (b : ℕ) (bs : List ℕ) (time : ℕ) (is_keyframe : Bool) (n : Numbers) (p : Publisher)
    (s : Session)
    → length (b ∷ bs) < 2 ^ 32
    → s.engine ≡ p.engine
    → s.video_seq ≡ n.video_seq
    → s.session_running ≡ true
    → s.video_muted ≡ false
    → let (n', p', ok) = p2p_publisher_send_video w (some (b ∷ bs)) time is_keyframe n p in
      let frame : VideoFrame = record {
        bytes = some (b ∷ bs);
        timestamp_us = time;
        is_keyframe = is_keyframe;
      } in
      let (s', e) = video_send w frame s in (p'.engine ≡ s'.engine) × (n'.video_seq ≡ s'.video_seq)
unfolding p2p_publisher_send_video video_send send_picture
p2p_publisher_send_video-video_send w b bs time is_keyframe n p s size same number runs hears =
    let fits : suc (length bs) % 2 ^ 32 ≡ suc (length bs) = omega (arith, size) in
    let out : Outgoing = record {
      type = FrameType.video;
      flags = if is_keyframe then 1 else 0;
      seq = n.video_seq;
      timestamp_us = time;
      bytes = b ∷ bs;
      len = suc (length bs);
    } in
    let eng = p.engine in
    rw
      (
        runs,
        hears,
        same,
        number,
        fits,
        publish-send_to_peers eng.host w out eng.peers eng.next_wakeup_us,
      )
      (refl, refl)

-- The same holds of sound.
pub p2p_publisher_send_audio-audio_send :
    (w : World) (b : ℕ) (bs : List ℕ) (time : ℕ) (n : Numbers) (p : Publisher) (s : Session)
    → length (b ∷ bs) < 2 ^ 32
    → s.engine ≡ p.engine
    → s.audio_seq ≡ n.audio_seq
    → s.session_running ≡ true
    → s.audio_muted ≡ false
    → let (n', p', ok) = p2p_publisher_send_audio w (some (b ∷ bs)) time n p in
      let frame : AudioFrame = record { bytes = some (b ∷ bs); timestamp_us = time } in
      let (s', e) = audio_send w frame s in (p'.engine ≡ s'.engine) × (n'.audio_seq ≡ s'.audio_seq)
unfolding p2p_publisher_send_audio audio_send
p2p_publisher_send_audio-audio_send w b bs time n p s size same number runs hears =
    let fits : suc (length bs) % 2 ^ 32 ≡ suc (length bs) = omega (arith, size) in
    let out : Outgoing = record {
      type = FrameType.audio;
      flags = 0;
      seq = n.audio_seq;
      timestamp_us = time;
      bytes = b ∷ bs;
      len = suc (length bs);
    } in
    let eng = p.engine in
    rw
      (
        runs,
        hears,
        same,
        number,
        fits,
        publish-send_to_peers eng.host w out eng.peers eng.next_wakeup_us,
      )
      (refl, refl)
