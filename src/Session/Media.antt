-- ===== src/Session/Media.antt =====
-- Video and audio of src/p2p/src/p2pav.c: what the application sends to every connected peer, mutes,
-- callbacks and keyframe requests. A session pointer that is NULL is rejected first by every function;
-- the model has a session. What the libraries answer depends on the peer's index.
pub mod Laws
use libp2pchannel.Prelude.{
  ℕ, ◌+◌, ◌%◌, ◌^◌, Bool, true, not, ◌&&◌, Option, none, some, List, [], ◌∷◌, ◌++◌, if◌then◌else◌,
  length,
}
use libp2pchannel.Adapter.FrameType
use libp2pchannel.Peer.{Peer, Host, Effect}
use libp2pchannel.Peer.Send.{send_data_via_quic, send_idr_request}
use libp2pchannel.Engine.{Engine, peer_at}
use libp2pchannel.Engine.Peers.{find_peer}
use libp2pchannel.Session.{
  IdrCache, no_cache, cached, dangling, Session, SessionError, Notice, notices_of, can_send,
}
use libp2pchannel.Session

-- What `p2p_peer_send_data_via_quic` is given besides the peer.
pub record Outgoing : Type 0 where
  pub type : ℕ
  pub flags : ℕ
  pub seq : ℕ
  pub timestamp_us : ℕ
  pub bytes : List ℕ
  pub len : ℕ

-- The clock and the memory of one call.
pub record World : Type 0 where
  pub now : ℕ
  pub allocated : ℕ → Bool
  pub cache_allocated : Bool
  pub requested : ℕ → Bool
  pub written : ℕ → Bool

-- One round of `send_to_all_peers_internal`, with the engine's `next_wakeup_us`.
unfoldable pub send_to_peer : Host → World → Outgoing → Peer → ℕ → Peer × ℕ
send_to_peer host w out p wakeup =
    let (p', wakeup', s) =
      send_data_via_quic host w.now out.type out.flags out.seq out.timestamp_us out.bytes out.len
        (w.allocated p.index) p wakeup in
    if can_send p then (p', wakeup') else (p, wakeup)

-- `send_to_all_peers_internal`, over all the slots
unfoldable pub send_to_peers : Host → World → Outgoing → List Peer → ℕ → List Peer × ℕ
send_to_peers host w out [] wakeup = ([], wakeup)
send_to_peers host w out (p ∷ ps) wakeup =
    let (p', wakeup') = send_to_peer host w out p wakeup in
    let (ps', wakeup'') = send_to_peers host w out ps wakeup' in (p' ∷ ps', wakeup'')

abbrev pub send_to_all : World → Outgoing → Engine → Engine
send_to_all w out eng =
    let (ps, wakeup) = send_to_peers eng.host w out eng.peers eng.next_wakeup_us in
    record eng { peers = ps; next_wakeup_us = wakeup }

-- `p2pav_video_frame_t` with its bytes, `size` of them, an `int`; `none` is a NULL `data`.
pub record VideoFrame : Type 0 where
  pub bytes : Option (List ℕ)
  pub timestamp_us : ℕ
  pub is_keyframe : Bool

-- The cache after a keyframe: a failed `realloc` keeps the old one. `realloc` to size 0 frees the old one
-- and returns NULL, so that the pointer is kept; what it does with a freed one is undefined.
unfoldable pub realloc_cache : Bool → List ℕ → IdrCache → IdrCache
realloc_cache allocated bytes dangling = dangling
realloc_cache allocated bytes no_cache = if allocated then cached bytes else no_cache
realloc_cache allocated [] (cached old) = dangling
realloc_cache allocated (b ∷ bs) (cached old) = if allocated then cached (b ∷ bs) else cached old

abbrev pub cache_frame : Bool → Bool → List ℕ → IdrCache → IdrCache
cache_frame allocated is_keyframe bytes cache =
    if is_keyframe then realloc_cache allocated bytes cache else cache

abbrev pub note_first_sent : ℕ → Session → Session
note_first_sent now s = if s.first_video_sent then s else record s {
  timing = record s.timing { first_video_sent_us = now };
  first_video_sent = true;
}

abbrev pub video_out : List ℕ → VideoFrame → Session → Outgoing
video_out bytes frame s = record {
  type = FrameType.video;
  flags = if frame.is_keyframe then 1 else 0;
  seq = s.video_seq;
  timestamp_us = frame.timestamp_us;
  bytes = bytes;
  len = length bytes;
}

-- The end of `p2pav_video_send`, for a session that is running and not muted.
unfoldable pub send_picture : World → List ℕ → VideoFrame → Session → Session
unfolding send_to_peers realloc_cache
send_picture w bytes frame s =
    let noted = note_first_sent w.now s in
    record noted {
      idr_cache = cache_frame w.cache_allocated frame.is_keyframe bytes s.idr_cache;
      video_seq = (s.video_seq + 1) % 2 ^ 32;
      engine = send_to_all w (video_out bytes frame s) s.engine;
    }

-- `p2pav_video_send`; a NULL frame is like a frame without data.
unfoldable pub video_send : World → VideoFrame → Session → Session × SessionError
unfolding send_picture
video_send w frame s = elim frame.bytes [
  | none ↦ (s, Session.invalid_param)
  | some bytes ↦
      if not s.session_running
      then (s, Session.not_connected)
      else if s.video_muted
      then (s, Session.ok)
      else (send_picture w bytes frame s, Session.ok)
]

-- `p2pav_audio_frame_t`
pub record AudioFrame : Type 0 where
  pub bytes : Option (List ℕ)
  pub timestamp_us : ℕ

abbrev pub audio_out : List ℕ → AudioFrame → Session → Outgoing
audio_out bytes frame s = record {
  type = FrameType.audio;
  flags = 0;
  seq = s.audio_seq;
  timestamp_us = frame.timestamp_us;
  bytes = bytes;
  len = length bytes;
}

-- `p2pav_audio_send`
unfoldable pub audio_send : World → AudioFrame → Session → Session × SessionError
unfolding send_to_peers
audio_send w frame s = elim frame.bytes [
  | none ↦ (s, Session.invalid_param)
  | some bytes ↦
      if not s.session_running
      then (s, Session.not_connected)
      else if s.audio_muted
      then (s, Session.ok)
      else (
        record s {
          audio_seq = (s.audio_seq + 1) % 2 ^ 32;
          engine = send_to_all w (audio_out bytes frame s) s.engine;
        },
        Session.ok,
      )
]

-- `p2pav_video_mute`, `p2pav_audio_mute` and the setters of the callbacks
abbrev pub video_mute : Bool → Session → Session
video_mute mute s = record s { video_muted = mute }

abbrev pub audio_mute : Bool → Session → Session
audio_mute mute s = record s { audio_muted = mute }

abbrev pub video_set_recv_callback : Bool → Session → Session
video_set_recv_callback cb s = record s { video_recv_cb = cb }

abbrev pub video_set_keyframe_request_callback : Bool → Session → Session
video_set_keyframe_request_callback cb s = record s { keyframe_req_cb = cb }

abbrev pub audio_set_recv_callback : Bool → Session → Session
audio_set_recv_callback cb s = record s { audio_recv_cb = cb }

-- A keyframe request to each connected peer, with the engine's `next_wakeup_us`.
unfoldable pub request_all : World → List Peer → ℕ → ℕ × List Effect
request_all w [] wakeup = (wakeup, [])
request_all w (p ∷ ps) wakeup =
    let (wakeup', st, es) =
      send_idr_request w.now (w.requested p.index) (w.written p.index) p wakeup in
    let (wakeup'', fs) = request_all w ps (if can_send p then wakeup' else wakeup) in
    (wakeup'', (if can_send p then es else []) ++ fs)

-- `p2pav_video_request_keyframe`, of the named peer, or of all if there is no name.
unfoldable pub video_request_keyframe :
    World → Option (List ℕ) → Session → Session × SessionError × List Notice
unfolding request_all
video_request_keyframe w none s =
    let (wakeup, es) = request_all w s.engine.peers s.engine.next_wakeup_us in
    (record s { engine = record s.engine { next_wakeup_us = wakeup } }, Session.ok, notices_of es)
video_request_keyframe w (some from_peer) s = elim (find_peer 0 from_peer s.engine.peers) [
  | none ↦ (s, Session.peer_not_found, [])
  | some i ↦
      let p = peer_at s.engine i in
      let (wakeup, st, es) =
        send_idr_request w.now (w.requested p.index) (w.written p.index) p
          s.engine.next_wakeup_us in
      (record s { engine = record s.engine { next_wakeup_us = wakeup } }, Session.ok, notices_of es)
]
