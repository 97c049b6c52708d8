-- ===== src/Session/Media/Laws.antt =====
-- What a frame that the application sends does to the peers, in src/p2p/src/p2pav.c.
use libp2pchannel.Prelude.{
  ℕ, zero, suc, ◌+◌, ◌%◌, ◌^◌, ◌<◌, ◌≡◌, refl, ◌≢◌, Bool, true, false, not, ◌&&◌, some, List, [],
  ◌∷◌, ◌++◌, arith, if◌then◌else◌, length, get_or,
}
use libp2pchannel.FrameQueue.{FrameEntry}
use libp2pchannel.FrameQueue.Inv.{IsValid}
use libp2pchannel.FrameQueue.Refine.{contents, kept, offered}
use libp2pchannel.Peer.{Peer, Host, fresh_peer}
use libp2pchannel.Peer.Send.Laws.{send_data_via_quic-queue}
use libp2pchannel.Engine.{peer_at}
use libp2pchannel.Session.{IdrCache, no_cache, cached, dangling, Session, can_send}
use libp2pchannel.Session
use libp2pchannel.Session.Media.{
  realloc_cache, Outgoing, World, send_to_peer, send_to_peers, VideoFrame, send_picture, video_send,
  video_out, AudioFrame, audio_out, audio_send,
}

abbrev pub entry_of : Outgoing → FrameEntry
entry_of out = offered out.type out.flags out.seq out.timestamp_us out.bytes out.len

-- The queue of a peer after a frame: a peer that can be sent to drops the oldest frames of a full queue
-- and has the new frame last, if memory is there.
abbrev pub after_send : World → Outgoing → Peer → List FrameEntry
after_send w out p =
    if not (can_send p)
    then contents p.frame_queue
    else if w.allocated p.index
    then kept (contents p.frame_queue) ++ (entry_of out ∷ [])
    else kept (contents p.frame_queue)

send_to_peer_lem :
    (host : Host) (w : World) (out : Outgoing) (p : Peer) (wakeup : ℕ)
    → IsValid p.frame_queue
    → let (p', wakeup') = send_to_peer host w out p wakeup in
      IsValid p'.frame_queue × (contents p'.frame_queue ≡ after_send w out p)
unfolding send_to_peer
send_to_peer_lem host w out p wakeup v = ground (
  arith,
  send_data_via_quic-queue host w.now out.type out.flags out.seq out.timestamp_us out.bytes out.len
      (w.allocated p.index) p wakeup v,
)

send_to_peers_lem :
    (host : Host) (w : World) (out : Outgoing) (ps : List Peer) (wakeup i : ℕ) (d : Peer)
    → i < length ps
    → IsValid (get_or ps i d).frame_queue
    → let (ps', wakeup') = send_to_peers host w out ps wakeup in
      IsValid (get_or ps' i d).frame_queue
      × (contents (get_or ps' i d).frame_queue ≡ after_send w out (get_or ps i d))
unfolding send_to_peers
send_to_peers_lem host w out [] wakeup i d h v = absurd (omega arith)
send_to_peers_lem host w out (p ∷ ps) wakeup zero d h v = send_to_peer_lem host w out p wakeup v
send_to_peers_lem host w out (p ∷ ps) wakeup (suc i) d h v =
    send_to_peers_lem host w out ps (send_to_peer host w out p wakeup).1 i d (omega arith) v

realloc_cache-given :
    (allocated : Bool) (b : ℕ) (bs : List ℕ) (cache : IdrCache)
    → cache ≢ dangling
    → realloc_cache allocated (b ∷ bs) cache ≡ (if allocated then cached (b ∷ bs) else cache)
unfolding realloc_cache
realloc_cache-given allocated b bs no_cache h = refl
realloc_cache-given allocated b bs (cached old) h = refl
realloc_cache-given allocated b bs dangling h = absurd (h refl)

-- `p2pav_video_send` on a frame of at least one byte, with a cache that was not freed: nothing is sent by a session that does not run or is muted.
-- Otherwise each connected peer with an agent has the frame last in its queue, with the key flag of a
-- keyframe and the session's number, if memory is there, and a peer that is not connected has what it
-- had; the number advances, and a keyframe becomes the cached one, if memory is there. Queues stay valid.
pub video_send_lem :
    (w : World) (b : ℕ) (bs : List ℕ) (frame : VideoFrame) (s : Session) (i : ℕ)
    → frame.bytes ≡ some (b ∷ bs)
    → s.idr_cache ≢ dangling
    → i < length s.engine.peers
    → IsValid (peer_at s.engine i).frame_queue
    → let (s', e) = video_send w frame s in
      let bytes = b ∷ bs in
      let sends = s.session_running && not s.video_muted in
      (e ≡ (if s.session_running then Session.ok else Session.not_connected))
      × IsValid (peer_at s'.engine i).frame_queue
      × (contents (peer_at s'.engine i).frame_queue ≡ (
          if sends
          then after_send w (video_out bytes frame s) (peer_at s.engine i)
          else contents (peer_at s.engine i).frame_queue))
      × (s'.video_seq ≡ (if sends then (s.video_seq + 1) % 2 ^ 32 else s.video_seq))
      × (s'.idr_cache
          ≡ (if sends && frame.is_keyframe && w.cache_allocated then cached bytes else s.idr_cache))
unfolding video_send send_picture
video_send_lem w b bs frame s i g live h v = ground (
  arith,
  realloc_cache-given w.cache_allocated b bs s.idr_cache live,
  send_to_peers_lem s.engine.host w (video_out (b ∷ bs) frame s) s.engine.peers
      s.engine.next_wakeup_us i (fresh_peer i) h v,
)

-- An empty keyframe, sent by a session that has one cached, frees the cache and leaves its pointer.
pub video_send-empty :
    (w : World) (frame : VideoFrame) (s : Session) (old : List ℕ)
    → frame.bytes ≡ some []
    → frame.is_keyframe ≡ true
    → s.session_running ≡ true
    → s.video_muted ≡ false
    → s.idr_cache ≡ cached old
    → (video_send w frame s).0.idr_cache ≡ dangling
unfolding video_send send_picture realloc_cache
video_send-empty w frame s old g k r m c = rw (g, r, m, k, c) refl

-- `p2pav_audio_send` on a frame with data does the same without flags, with the number of audio frames.
pub audio_send_lem :
    (w : World) (bytes : List ℕ) (frame : AudioFrame) (s : Session) (i : ℕ)
    → frame.bytes ≡ some bytes
    → i < length s.engine.peers
    → IsValid (peer_at s.engine i).frame_queue
    → let (s', e) = audio_send w frame s in
      let sends = s.session_running && not s.audio_muted in
      (e ≡ (if s.session_running then Session.ok else Session.not_connected))
      × IsValid (peer_at s'.engine i).frame_queue
      × (contents (peer_at s'.engine i).frame_queue ≡ (
          if sends
          then after_send w (audio_out bytes frame s) (peer_at s.engine i)
          else contents (peer_at s.engine i).frame_queue))
      × (s'.audio_seq ≡ (if sends then (s.audio_seq + 1) % 2 ^ 32 else s.audio_seq))
unfolding audio_send
audio_send_lem w bytes frame s i b h v = ground (
  arith,
  send_to_peers_lem s.engine.host w (audio_out bytes frame s) s.engine.peers s.engine.next_wakeup_us
      i (fresh_peer i) h v,
)
