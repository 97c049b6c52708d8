-- ===== src/Session/Signals/Cached.antt =====
-- The cached keyframe of src/p2p/src/p2pav.c and the data channels, when peers come and go.
use libp2pchannel.Prelude.{
  ℕ, ◌+◌, ◌%◌, ◌^◌, ◌<◌, ◌≡◌, refl, ap, ◌∙◌, ◌≢◌, true, some, List, [], ◌∷◌, ◌++◌, map, arith,
  length, get_or, get_or-set_self, get_or-set_ne, negsuc,
}
use libp2pchannel.Adapter.{is_publisher, quic_connected}
use libp2pchannel.Adapter.FrameType
use libp2pchannel.FrameQueue.{FrameEntry, flush, write_of}
use libp2pchannel.FrameQueue.Inv.{IsValid}
use libp2pchannel.FrameQueue.Refine.{contents, kept, offered}
use libp2pchannel.FrameQueue.Flush.{flush-writes, writes}
use libp2pchannel.Peer.{Peer, fresh_peer, moq_write}
use libp2pchannel.Peer.Send.{send_data_via_quic, outlets, flush_send_queue}
use libp2pchannel.Peer.Send.Laws.{send_data_via_quic-queue, flush_send_queue_all}
use libp2pchannel.Engine.{Engine, peer_at}
use libp2pchannel.Session.{cached, Session}
use libp2pchannel.Session.Media.{World}
use libp2pchannel.Prelude.Text.{snprintf_s}
use libp2pchannel.Engine.Peers.{find_peer, add_peer}
use libp2pchannel.Session.{no_channel}
use libp2pchannel.Session
use libp2pchannel.Session.Channels.{find_channel, channel_at, data_send}
use libp2pchannel.Session.Channels.Use.{Delivered, IsReachable, data_send_to}
use libp2pchannel.Session.Signals.{
  Creation, send_cached, internal_on_quic_connected, internal_on_sig_peer_left,
  internal_on_sig_peer_joined,
}
use libp2pchannel.Session.Signals.Laws.{peer_joined_all, joined_slot}

-- The frame that a new subscriber is sent.
abbrev pub cached_entry : World → List ℕ → Session → FrameEntry
cached_entry w bytes s = offered FrameType.video 1 s.video_seq w.now bytes (length bytes)

-- When a subscriber's connection is up, a publisher that has cached a keyframe puts it last into that
-- peer's queue, as a keyframe with the session's next number, and no other slot changes. Memory is there,
-- the peer's slot is in range, and its queue is valid.
pub quic_connected-cached :
    (w : World) (i byte : ℕ) (rest : List ℕ) (s : Session)
    → is_publisher s.role ≡ true
    → s.idr_cache ≡ cached (byte ∷ rest)
    → i < length s.engine.peers
    → (peer_at s.engine i).state ≡ quic_connected
    → w.allocated (peer_at s.engine i).index ≡ true
    → IsValid (peer_at s.engine i).frame_queue
    → let s' = (internal_on_quic_connected w i s).0 in
      let p = peer_at s.engine i in
      let p' = peer_at s'.engine i in
      (p' ≡ record p { frame_queue = p'.frame_queue })
      × IsValid p'.frame_queue
      × (contents p'.frame_queue
          ≡ kept (contents p.frame_queue) ++ (cached_entry w (byte ∷ rest) s ∷ []))
      × (s'.video_seq ≡ (s.video_seq + 1) % 2 ^ 32)
      × ((j : ℕ) → i ≢ j → peer_at s'.engine j ≡ peer_at s.engine j)
unfolding internal_on_quic_connected send_cached
quic_connected-cached w i byte rest s pb cache h c m v =
    let bytes = byte ∷ rest in
    let p = peer_at s.engine i in
    let sent =
      send_data_via_quic s.engine.host w.now FrameType.video 1 s.video_seq w.now bytes
        (length bytes) (w.allocated p.index) p s.engine.next_wakeup_us in
    let (v', same, q, st) =
      send_data_via_quic-queue s.engine.host w.now FrameType.video 1 s.video_seq w.now bytes
        (length bytes) (w.allocated p.index) p s.engine.next_wakeup_us v in
    let queued : contents sent.0.frame_queue
        ≡ kept (contents p.frame_queue) ++ (cached_entry w bytes s ∷ []) =
      q ∙ rw (c, m) refl in
    let new = get_or-set_self s.engine.peers i sent.0 (fresh_peer i) h in
    rw (pb, cache, new)
      (same, v', queued, refl, λ j ne. get_or-set_ne s.engine.peers i j sent.0 (fresh_peer j) ne)

-- A flush of a peer's queue that holds one video frame, without a subscription, makes no write and
-- empties the queue.
flush-unsubscribed :
    (p : Peer) (session n seq time flags : ℕ) (bytes : List ℕ)
    → p.moq_session ≡ some session
    → p.video_subscribe_id ≡ negsuc n
    → IsValid p.frame_queue
    → contents p.frame_queue ≡ offered FrameType.video flags seq time bytes (length bytes) ∷ []
    → let (p', es) = flush_send_queue (λ e. true) p in (es ≡ []) × (contents p'.frame_queue ≡ [])
unfolding writes write_of
flush-unsubscribed p session n seq time flags bytes m none_yet v one =
    let (ws, empty, _) = flush-writes (outlets p) (λ e. true) v in
    let nothing : (flush (outlets p) (λ e. true) p.frame_queue).1 ≡ [] =
      ws ∙ rw (one, none_yet) refl in
    rw (flush_send_queue_all (λ e. true) p session m)
      (ap (map (λ x. moq_write session x)) nothing, empty)

-- The keyframe that a new subscriber is sent from the cache is lost when the engine thread comes to the
-- peer's queue before the subscriber has subscribed: the round writes nothing and empties the queue.
-- The queue was empty, and the connection has its media session but no subscription to the video yet.
pub cached_keyframe_lost :
    (w : World) (i byte session n : ℕ) (rest : List ℕ) (s : Session)
    → is_publisher s.role ≡ true
    → s.idr_cache ≡ cached (byte ∷ rest)
    → i < length s.engine.peers
    → (peer_at s.engine i).state ≡ quic_connected
    → w.allocated (peer_at s.engine i).index ≡ true
    → IsValid (peer_at s.engine i).frame_queue
    → contents (peer_at s.engine i).frame_queue ≡ []
    → (peer_at s.engine i).moq_session ≡ some session
    → (peer_at s.engine i).video_subscribe_id ≡ negsuc n
    → let s' = (internal_on_quic_connected w i s).0 in
      let (p', es) = flush_send_queue (λ e. true) (peer_at s'.engine i) in
      (contents (peer_at s'.engine i).frame_queue ≡ cached_entry w (byte ∷ rest) s ∷ [])
      × (es ≡ [])
      × (contents p'.frame_queue ≡ [])
cached_keyframe_lost w i byte session n rest s pb cache h c m v empty ms sub =
    let (same, v', q, _, _) = quic_connected-cached w i byte rest s pb cache h c m v in
    let p' = peer_at (internal_on_quic_connected w i s).0.engine i in
    let one : contents p'.frame_queue ≡ cached_entry w (byte ∷ rest) s ∷ [] = q ∙ rw empty refl in
    let (a, b) =
      flush-unsubscribed p' session n s.video_seq w.now 1 (byte ∷ rest)
        (ap (λ (x : Peer). x.moq_session) same ∙ ms)
        (ap (λ (x : Peer). x.video_subscribe_id) same ∙ sub) v' one in
    (one, a, b)

peer_left-kept :
    (pid : List ℕ) (s : Session)
    → let s' = (internal_on_sig_peer_left pid s).0 in
      (s'.data_channels ≡ s.data_channels)
      × (s'.role ≡ s.role)
      × (s'.session_running ≡ s.session_running)
unfolding internal_on_sig_peer_left
peer_left-kept pid s = ground arith

-- A data channel outlives its peer: the peer of slot `i` has left, and another one has joined in its slot.
-- Once the engine has gone on and that peer, still of its name, is connected, a message over the channel
-- that was opened for the first peer succeeds and stands last in the queue of the slot, which bears the name
-- of the second, and no other slot changes. The session runs, the message has at least one byte and less
-- than 4 GiB, and memory is there.
pub channel_outlives_peer :
    (w : World) (now agent ch k i byte : ℕ) (rest : List ℕ) (c : Creation) (pid other : List ℕ)
    (s : Session) (eng : Engine)
    → is_publisher s.role ≡ true
    → s.session_running ≡ true
    → length (byte ∷ rest) < 2 ^ 32
    → IsReachable w i eng
    → c.agent ≡ some agent
    → find_peer 0 pid s.engine.peers ≡ some i
    → find_channel 0 ch s.data_channels ≡ some k
    → (channel_at s k).peer_index ≡ i
    → let s1 = (internal_on_sig_peer_left pid s).0 in
      (add_peer other c.agent c.allocated c.created_us s1.engine).1 ≡ some i
      → let s2 = (internal_on_sig_peer_joined now c other s1).0 in
        (peer_at eng i).peer_id ≡ (peer_at s2.engine i).peer_id
        → let s3 : Session = record s2 { engine = eng } in
          let (s', e) = data_send w ch (byte ∷ rest) s3 in
          ((peer_at eng i).peer_id ≡ snprintf_s 64 other)
          × Delivered w i (byte ∷ rest) s3.data_seq eng s'
          × (e ≡ Session.ok)
channel_outlives_peer w now agent ch k i byte rest c pid other s eng pb run fits reach a f found ix
      e name =
    let s1 = (internal_on_sig_peer_left pid s).0 in
    let s2 = (internal_on_sig_peer_joined now c other s1).0 in
    let (channels, role, running) = peer_left-kept pid s in
    let (h, all) = peer_joined_all now agent i c other s1 (ap is_publisher role ∙ pb) a e in
    let same : s2.data_channels ≡ s.data_channels = ap (λ r. r.0.data_channels) all ∙ channels in
    let named : (peer_at s2.engine i).peer_id ≡ snprintf_s 64 other =
      ap (λ r. (peer_at r.0.engine i).peer_id) all
      ∙ ap (λ (p : Peer). p.peer_id)
          (get_or-set_self s1.engine.peers i (joined_slot i other c agent s1.engine) (fresh_peer i)
            h) in
    let (d, ok) =
      data_send_to w ch k i byte rest (record s2 { engine = eng }) fits
        (ap (find_channel 0 ch) same ∙ found)
        (ap (λ cs. (get_or cs k no_channel).peer_index) same ∙ ix) reach
        (ap (λ r. r.0.session_running) all ∙ running ∙ run) in
    (name ∙ named, d, ok)
