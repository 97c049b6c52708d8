-- ===== src/Session/Channels/Use.antt =====
-- Messages over the data channels of src/p2p/src/p2pav.c.
use libp2pchannel.Prelude.{
  ℕ, ◌+◌, ◌%◌, ◌^◌, ◌<◌, ◌≡◌, refl, sym, ap, subst, ◌∙◌, ◌≢◌, inl, inr, true, false, none, some,
  List, [], ◌∷◌, ◌++◌, arith, ℕ_discrete, eq→==, Option-cases, length, get_or, set, get_or-set_self,
  get_or-set_ne,
}
use libp2pchannel.Adapter.{is_quic_connected}
use libp2pchannel.Adapter.FrameType
use libp2pchannel.FrameQueue
use libp2pchannel.FrameQueue.Refine.{contents, kept, offered}
use libp2pchannel.Peer.{Peer, fresh_peer}
use libp2pchannel.Peer.Send.{send_data_via_quic}
use libp2pchannel.Peer.Send.Laws.{send_data_via_quic-queue}
use libp2pchannel.Engine.{Engine, peer_at}
use libp2pchannel.Engine.Peers.{find_peer}
use libp2pchannel.Session.{Session, Channel, can_send, max_peers, no_channel}
use libp2pchannel.Session
use libp2pchannel.Session.Media.{World}
use libp2pchannel.Session.Channels.{
  ChannelConfig, find_channel, free_channel, channel_at, opened, open_at, data_open, data_close,
  data_send, send_message,
}
use libp2pchannel.Session.Channels.Laws.{
  IsValid, data_open-IsValid, data_open_named, data_close_found, data_close_missing,
  find_channel-IsValid, find_channel_found, free_channel_found, has_id,
}

-- The message of number `seq` stands last in the queue of slot `i`'s peer of the engine; the session's
-- number has advanced, and no other slot has changed.
pub record Delivered (w : World) (i : ℕ) (bytes : List ℕ) (seq : ℕ) (eng : Engine) (s' : Session)
    : Type 0 where
  pub numbered : s'.data_seq ≡ (seq + 1) % 2 ^ 32
  pub queued :
      contents (peer_at s'.engine i).frame_queue
      ≡ kept (contents (peer_at eng i).frame_queue)
        ++ (offered FrameType.data_msg 0 seq w.now bytes (length bytes) ∷ [])
  pub others_kept : (j : ℕ) → i ≢ j → peer_at s'.engine j ≡ peer_at eng j

-- The peer of slot `i` is there, connected and with an agent, its queue is valid and memory is there.
pub record IsReachable (w : World) (i : ℕ) (eng : Engine) : Type 0 where
  pub in_range : i < max_peers
  pub slots : length eng.peers ≡ max_peers
  pub queue_valid : FrameQueue.Inv.IsValid (peer_at eng i).frame_queue
  pub ready : can_send (peer_at eng i) ≡ true
  pub memory : w.allocated (peer_at eng i).index ≡ true

send_message-Delivered :
    (w : World) (i : ℕ) (bytes : List ℕ) (s : Session)
    → length bytes < 2 ^ 32
    → IsReachable w i s.engine
    → Delivered w i bytes s.data_seq s.engine (send_message w i bytes s).0
      × ((send_message w i bytes s).1 ≡ Session.ok)
unfolding send_message
send_message-Delivered w i bytes s fits r =
    let cast : length bytes % 2 ^ 32 ≡ length bytes = omega arith in
    let p = peer_at s.engine i in
    let sent =
      send_data_via_quic s.engine.host w.now FrameType.data_msg 0 s.data_seq w.now bytes
        (length bytes % 2 ^ 32) (w.allocated p.index) p s.engine.next_wakeup_us in
    let (v, _, c, st) =
      send_data_via_quic-queue s.engine.host w.now FrameType.data_msg 0 s.data_seq w.now bytes
        (length bytes % 2 ^ 32) (w.allocated p.index) p s.engine.next_wakeup_us r.queue_valid in
    let connected : is_quic_connected p.state ≡ true = ground (arith, r.ready) in
    let new =
      get_or-set_self s.engine.peers i sent.0 (fresh_peer i) (omega (arith, r.in_range, r.slots)) in
    (
      record {
        numbered = refl;
        queued =
            ap (λ (q : Peer). contents q.frame_queue) new ∙ c ∙ rw (connected, r.memory, cast) refl;
        others_kept = λ j ne. get_or-set_ne s.engine.peers i j sent.0 (fresh_peer j) ne;
      },
      ground (arith, st, r.memory, connected),
    )

data_send_found :
    (w : World) (ch_id k byte : ℕ) (rest : List ℕ) (s : Session)
    → find_channel 0 ch_id s.data_channels ≡ some k
    → let i = (channel_at s k).peer_index in
      IsReachable w i s.engine
      → s.session_running ≡ true
      → data_send w ch_id (byte ∷ rest) s ≡ send_message w i (byte ∷ rest) s
unfolding data_send
data_send_found w ch_id k byte rest s f r run = ground (arith, r.in_range, r.ready)

-- `p2pav_data_send` of at least one byte and less than 4 GiB over a channel to a peer that is connected: it
-- succeeds, the message stands last in
-- that peer's queue and nobody else's slot changes. The session runs, and memory is there.
pub data_send-Delivered :
    (w : World) (ch_id k byte : ℕ) (rest : List ℕ) (s : Session)
    → length (byte ∷ rest) < 2 ^ 32
    → find_channel 0 ch_id s.data_channels ≡ some k
    → IsReachable w (channel_at s k).peer_index s.engine
    → s.session_running ≡ true
    → let (s', e) = data_send w ch_id (byte ∷ rest) s in
      Delivered w (channel_at s k).peer_index (byte ∷ rest) s.data_seq s.engine s'
      × (e ≡ Session.ok)
data_send-Delivered w ch_id k byte rest s fits f r run =
    rw (data_send_found w ch_id k byte rest s f r run)
      (send_message-Delivered w (channel_at s k).peer_index (byte ∷ rest) s fits r)

-- The same, for a channel to the peer of slot `i`.
pub data_send_to :
    (w : World) (ch_id k i byte : ℕ) (rest : List ℕ) (s : Session)
    → length (byte ∷ rest) < 2 ^ 32
    → find_channel 0 ch_id s.data_channels ≡ some k
    → (channel_at s k).peer_index ≡ i
    → IsReachable w i s.engine
    → s.session_running ≡ true
    → let (s', e) = data_send w ch_id (byte ∷ rest) s in
      Delivered w i (byte ∷ rest) s.data_seq s.engine s' × (e ≡ Session.ok)
data_send_to w ch_id k i byte rest s fits f index r run =
    let (d, ok) =
      data_send-Delivered w ch_id k byte rest s fits f
        (subst (λ n. IsReachable w n s.engine) (sym index) r) run in
    (
      subst
          (λ n.
            Delivered w n (byte ∷ rest) s.data_seq s.engine (data_send w ch_id (byte ∷ rest) s).0)
          index d,
      ok,
    )

-- What a successful opening leaves.
open_at-some :
    (ch i : ℕ) (peer_id : List ℕ) (config : ChannelConfig) (s : Session)
    → (open_at (free_channel 0 s.data_channels) i peer_id config s).1 ≡ some ch
    → (k : ℕ) × (ch ≡ s.next_channel_id)
      × (k < length s.data_channels)
      × ((open_at (free_channel 0 s.data_channels) i peer_id config s).0 ≡ record s {
        data_channels =
            set s.data_channels k
              (opened s.next_channel_id (peer_at s.engine i).index config (channel_at s k));
        next_channel_id = s.next_channel_id + 1;
      })
open_at-some ch i peer_id config s e = elim (Option-cases (free_channel 0 s.data_channels)) [
  | inl f ↦ ground arith
  | inr (k, f) ↦
      let (j, a, b, d) = free_channel_found 0 k s.data_channels f in
      (k, ground arith, omega arith, ground arith)
]

-- A channel that `p2pav_data_open` returned for a peer takes messages to that peer: a first message of at
-- least one byte and less than 4 GiB over it succeeds and stands last in the queue of the slot with the peer's name, and nobody else's slot
-- changes. The channels' numbers are valid, the slot knows its index and its peer is connected, the
-- session runs, and memory is there.
pub data_send-data_open :
    (w : World) (peer_id : List ℕ) (config : ChannelConfig) (ch i byte : ℕ) (rest : List ℕ)
    (s : Session)
    → IsValid s
    → find_peer 0 peer_id s.engine.peers ≡ some i
    → (peer_at s.engine i).index ≡ i
    → (data_open peer_id config s).1 ≡ some ch
    → IsReachable w i s.engine
    → s.session_running ≡ true
    → length (byte ∷ rest) < 2 ^ 32
    → let (s', e) = data_send w ch (byte ∷ rest) (data_open peer_id config s).0 in
      Delivered w i (byte ∷ rest) s.data_seq s.engine s' × (e ≡ Session.ok)
data_send-data_open w peer_id config ch i byte rest s v f ix o r run fits =
    let named = data_open_named peer_id config i s f in
    let (k, a, b, q) = open_at-some ch i peer_id config s (ap (λ t. t.1) (sym named) ∙ o) in
    let c = opened s.next_channel_id (peer_at s.engine i).index config (channel_at s k) in
    let s' : Session = record s {
      data_channels = set s.data_channels k c;
      next_channel_id = s.next_channel_id + 1;
    } in
    let is : (data_open peer_id config s).0 ≡ s' = ap (λ t. t.0) named ∙ q in
    let at : channel_at s' k ≡ c = get_or-set_self s.data_channels k c no_channel b in
    let found : find_channel 0 ch s'.data_channels ≡ some k =
      find_channel-IsValid ch k (subst IsValid is (data_open-IsValid peer_id config v))
        (rw at (eq→== _ _ (sym a))) in
    let index : (channel_at s' k).peer_index ≡ i = ap (λ (d : Channel). d.peer_index) at ∙ ix in
    rw is (data_send_to w ch k i byte rest s' fits found index r run)

closed_is_missing :
    (ch_id k : ℕ) {s : Session}
    → IsValid s
    → find_channel 0 ch_id s.data_channels ≡ some k
    → find_channel 0 ch_id (set s.data_channels k (record (channel_at s k) { active = false }))
      ≡ none
closed_is_missing ch_id k {s} v e =
    let cs = set s.data_channels k (record (channel_at s k) { active = false }) in
    elim (Option-cases (find_channel 0 ch_id cs)) [
      | inl n ↦ n
      | inr (m, f) ↦
          let (j, a, b, h) = find_channel_found 0 ch_id k s.data_channels e in
          let (i, a', b', h') = find_channel_found 0 ch_id m cs f in
          let there : k < length s.data_channels = omega arith in
          let new =
            get_or-set_self s.data_channels k (record (channel_at s k) { active = false })
              no_channel there in
          elim (ℕ_discrete k i) [
            | yes p ↦ ground (
              arith,
              new,
              p,
              h',
              subst (λ n. has_id ch_id (get_or cs n no_channel) ≡ true) (sym p) h',
            )
            | no ne ↦
                let same =
                  get_or-set_ne s.data_channels k i (record (channel_at s k) { active = false })
                    no_channel ne in
                let at_k : has_id ch_id (channel_at s k) ≡ true =
                  subst (λ n. has_id ch_id (channel_at s n) ≡ true) (omega arith) h in
                let at_i : has_id ch_id (channel_at s i) ≡ true =
                  subst (λ c. has_id ch_id c ≡ true) same h' in
                absurd (ne (v.unique k i (ground arith) (ground arith) (ground arith)))
          ]
    ]

-- After `p2pav_data_close` a message over the channel is refused as an invalid parameter.
pub data_send-data_close :
    (w : World) (ch_id byte : ℕ) (rest : List ℕ) (s : Session)
    → IsValid s
    → s.session_running ≡ true
    → (data_send w ch_id (byte ∷ rest) (data_close ch_id s)).1 ≡ Session.invalid_param
unfolding data_send
data_send-data_close w ch_id byte rest s v run =
    elim (Option-cases (find_channel 0 ch_id s.data_channels)) [
      | inl e ↦ ground (arith, data_close_missing ch_id s e)
      | inr (k, e) ↦ ground (arith, data_close_found ch_id k s e, closed_is_missing ch_id k v e)
    ]
