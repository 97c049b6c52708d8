-- ===== src/FrameQueue.antt =====
-- The frame send queue of src/p2p/src/p2p_adapter.c (`p2p_frame_send_queue_t`, `frame_queue_push`,
-- `frame_queue_clear`, `p2p_peer_flush_send_queue`): the capture thread pushes frames, the engine
-- thread writes them to the media session. A heap buffer is an option of its bytes, `none` for NULL;
-- whether `malloc` succeeds is an argument.
pub mod Inv
pub mod Refine
pub mod Flush
use libp2pchannel.Prelude.{
  ℕ, zero, suc, ◌+◌, ◌-◌, ◌%◌, ◌^◌, Bool, not, ◌&&◌, Option, none, some, List, [], ◌∷◌, ◌++◌, leb,
  ◌==◌, if◌then◌else◌, get_or, set, take, replicate, ℤ, is_negative,
}
use libp2pchannel.Adapter.{PeerState, is_quic_connected, frame_queue_cap, has_key_flag}
use libp2pchannel.Adapter.FrameType

-- `p2p_frame_entry_t`
pub record FrameEntry : Type 0 where
  pub type : ℕ
  pub flags : ℕ
  pub seq : ℕ
  pub timestamp_us : ℕ
  pub bytes : Option (List ℕ)
  pub data_len : ℕ

-- `p2p_frame_send_queue_t`, less its mutex
pub record FrameQueue : Type 0 where
  pub entries : List FrameEntry
  pub head : ℕ
  pub count : ℕ

pub data Status : Type 0 where
  success failure : Status

unfoldable pub empty_entry : FrameEntry
empty_entry = record { type = 0; flags = 0; seq = 0; timestamp_us = 0; bytes = none; data_len = 0 }

-- The queue in a zeroed peer context.
unfoldable pub empty_queue : FrameQueue
empty_queue = record { entries = replicate frame_queue_cap empty_entry; head = 0; count = 0 }

-- `free(e->data); e->data = NULL;` on the oldest entry, and one step of `head` and `count`.
pub drop_head : FrameQueue → FrameQueue
drop_head q = record q {
  entries = set q.entries q.head (record (get_or q.entries q.head empty_entry) { bytes = none });
  head = (q.head + 1) % frame_queue_cap;
  count = q.count - 1;
}

-- Queue is full: drop oldest
pub make_room : FrameQueue → FrameQueue
make_room q = if leb frame_queue_cap q.count then drop_head q else q

-- The entry written at `(head + count) % P2P_FRAME_QUEUE_CAP`, with what `malloc` gave it.
pub write_entry : FrameQueue → ℕ → ℕ → ℕ → ℕ → List ℕ → ℕ → Bool → FrameQueue × Status
write_entry q type flags seq timestamp_us payload data_len allocated =
    let idx = (q.head + q.count) % frame_queue_cap in
    let old = get_or q.entries idx empty_entry in
    if allocated
    then (
      record q {
        entries = set q.entries idx (record {
          type = type;
          flags = flags;
          seq = seq;
          timestamp_us = timestamp_us;
          bytes = some (take data_len payload);
          data_len = data_len;
        });
        count = q.count + 1;
      },
      success,
    )
    else (
      record q {
        entries = set q.entries idx (record old {
          type = type;
          flags = flags;
          seq = seq;
          timestamp_us = timestamp_us;
          bytes = none;
        });
      },
      failure,
    )

-- `frame_queue_push`; the state is the peer's.
pub frame_queue_push :
    FrameQueue → PeerState → ℕ → ℕ → ℕ → ℕ → List ℕ → ℕ → Bool → FrameQueue × Status
frame_queue_push q state type flags seq timestamp_us payload data_len allocated =
    if is_quic_connected state
    then write_entry (make_room q) type flags seq timestamp_us payload data_len allocated
    else (q, failure)

-- The loop of `frame_queue_clear`: it runs `count` times.
pub clear_rounds : ℕ → FrameQueue → FrameQueue
unfolding drop_head
clear_rounds zero q = q
clear_rounds (suc n) q = clear_rounds n (drop_head q)

-- `frame_queue_clear`
pub frame_queue_clear : FrameQueue → FrameQueue
frame_queue_clear q = clear_rounds q.count q

-- What `p2p_peer_flush_send_queue` asks of the media session for one entry. The size of a data message's
-- buffer, `1 + e->data_len`, is a `uint32_t`: for a payload of 2^32 - 1 bytes it wraps to 0, and the message
-- is written past the end of the buffer, `datachannel_overrun`.
pub data MoqWrite : Type 0 where
  video_frame :
      (subscribe_id : ℤ) (is_key : Bool) (seq timestamp_us : ℕ) (payload : Option (List ℕ))
      (len : ℕ)
      → MoqWrite
  audio_frame :
      (subscribe_id : ℤ) (seq timestamp_us : ℕ) (payload : Option (List ℕ)) (len : ℕ) → MoqWrite
  datachannel : (message : List ℕ) → MoqWrite
  datachannel_overrun : MoqWrite

-- The fields of the peer that the flush reads.
pub record Outlets : Type 0 where
  pub video_subscribe_id : ℤ
  pub audio_subscribe_id : ℤ
  pub has_video_track : Bool
  pub has_audio_track : Bool
  pub datachannel_ready : Bool

-- The bytes read through `e->data`.
abbrev pub read_bytes : Option (List ℕ) → List ℕ
read_bytes none = []
read_bytes (some b) = b

-- The body of the flush loop; the last argument says whether the `malloc` of the data message
-- succeeds.
unfoldable pub write_of : Outlets → FrameEntry → Bool → List MoqWrite
write_of o e allocated =
    if e.type == FrameType.video && (not (is_negative o.video_subscribe_id) && o.has_video_track)
    then video_frame o.video_subscribe_id (has_key_flag e.flags) e.seq e.timestamp_us e.bytes
        e.data_len
      ∷ []
    else if e.type == FrameType.audio
        && (not (is_negative o.audio_subscribe_id) && o.has_audio_track)
    then audio_frame o.audio_subscribe_id e.seq e.timestamp_us e.bytes e.data_len ∷ []
    else if e.type == FrameType.data_msg && o.datachannel_ready
    then (if allocated
        then (if (1 + e.data_len) % 2 ^ 32 == 0
            then datachannel_overrun
            else datachannel (FrameType.data_msg ∷ take e.data_len (read_bytes e.bytes)))
          ∷ []
        else [])
    else []

-- The loop of `p2p_peer_flush_send_queue`, `count` rounds.
pub flush_rounds : ℕ → Outlets → (FrameEntry → Bool) → FrameQueue → FrameQueue × List MoqWrite
unfolding drop_head write_of
flush_rounds zero o allocated q = (q, [])
flush_rounds (suc n) o allocated q =
    let e = get_or q.entries q.head empty_entry in
    let (q', ws) = flush_rounds n o allocated (drop_head q) in
    (q', write_of o e (allocated e) ++ ws)

-- The locked part of `p2p_peer_flush_send_queue`.
pub flush : Outlets → (FrameEntry → Bool) → FrameQueue → FrameQueue × List MoqWrite
flush o allocated q = flush_rounds q.count o allocated q
