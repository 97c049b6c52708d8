-- ===== src/Publisher/Media.antt =====
-- What the publisher of src/p2p/src/p2p_publisher.c sends to its subscribers.
use libp2pchannel.Prelude.{
  ℕ, ◌+◌, ◌%◌, ◌^◌, Bool, true, false, ◌&&◌, Option, none, some, List, [], ◌∷◌, leb, if◌then◌else◌,
  length,
}
use libp2pchannel.Adapter.{is_quic_connected}
use libp2pchannel.Adapter.FrameType
use libp2pchannel.Peer.{Peer, Host, is_set}
use libp2pchannel.Peer.Send.{send_data_via_quic}
use libp2pchannel.Engine.{Engine}
use libp2pchannel.Session.Media.{World, Outgoing}
use libp2pchannel.Publisher.{Publisher, max_idr_cache_size}

-- The static variables `video_seq` and `audio_seq`, which all publishers of a process share.
pub record Numbers : Type 0 where
  pub video_seq : ℕ
  pub audio_seq : ℕ

-- One round of the loops of `p2p_publisher_send_video` and `p2p_publisher_send_audio`.
unfoldable pub publish_to : Host → World → Outgoing → Peer → ℕ → Peer × ℕ
publish_to host w out peer wakeup =
    let (peer', wakeup', s) =
      send_data_via_quic host w.now out.type out.flags out.seq out.timestamp_us out.bytes out.len
        (w.allocated peer.index) peer wakeup in
    if is_quic_connected peer.state && is_set peer.ice_agent
    then (peer', wakeup')
    else (peer, wakeup)

unfoldable pub publish : Host → World → Outgoing → List Peer → ℕ → List Peer × ℕ
unfolding publish_to
publish host w out [] wakeup = ([], wakeup)
publish host w out (peer ∷ peers) wakeup =
    let (peer', wakeup') = publish_to host w out peer wakeup in
    let (peers', wakeup'') = publish host w out peers wakeup' in (peer' ∷ peers', wakeup'')

abbrev pub publish_all : World → Outgoing → Engine → Engine
publish_all w out eng =
    let (peers, wakeup) = publish eng.host w out eng.peers eng.next_wakeup_us in
    record eng { peers = peers; next_wakeup_us = wakeup }

abbrev pub published : ℕ → ℕ → ℕ → ℕ → List ℕ → Outgoing
published type flags seq time bytes = record {
  type = type;
  flags = flags;
  seq = seq;
  timestamp_us = time;
  bytes = bytes;
  len = length bytes % 2 ^ 32;
}

-- A keyframe that fits the cache replaces what is there.
abbrev pub cached : Bool → ℕ → List ℕ → Publisher → Publisher
cached is_keyframe time bytes p =
    if is_keyframe && leb (length bytes) max_idr_cache_size
    then record p { idr_cache = bytes; idr_timestamp_us = time }
    else p

-- `p2p_publisher_send_video`; `none` is a NULL `data`. The result 0 or -1 is a truth value.
unfoldable pub p2p_publisher_send_video :
    World → Option (List ℕ) → ℕ → Bool → Numbers → Publisher → Numbers × Publisher × Bool
unfolding publish
p2p_publisher_send_video w none time is_keyframe n p = (n, p, false)
p2p_publisher_send_video w (some []) time is_keyframe n p = (n, p, false)
p2p_publisher_send_video w (some (b ∷ bs)) time is_keyframe n p =
    let out = published FrameType.video (if is_keyframe then 1 else 0) n.video_seq time (b ∷ bs) in
    let kept = cached is_keyframe time (b ∷ bs) p in
    (
      record n { video_seq = (n.video_seq + 1) % 2 ^ 32 },
      record kept { engine = publish_all w out p.engine },
      true,
    )

-- `p2p_publisher_send_audio`
unfoldable pub p2p_publisher_send_audio :
    World → Option (List ℕ) → ℕ → Numbers → Publisher → Numbers × Publisher × Bool
unfolding publish
p2p_publisher_send_audio w none time n p = (n, p, false)
p2p_publisher_send_audio w (some []) time n p = (n, p, false)
p2p_publisher_send_audio w (some (b ∷ bs)) time n p =
    let out = published FrameType.audio 0 n.audio_seq time (b ∷ bs) in
    (
      record n { audio_seq = (n.audio_seq + 1) % 2 ^ 32 },
      record p { engine = publish_all w out p.engine },
      true,
    )
