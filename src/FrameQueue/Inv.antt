-- ===== src/FrameQueue/Inv.antt =====
-- The representation invariant of the frame send queue of src/p2p/src/p2p_adapter.c.
use libp2pchannel.Prelude.{
  ℕ, ◌≤◌, ◌<◌, ◌≡◌, inl, inr, Bool, none, List, arith, Bool-cases, length, get_or, length-set,
  length-replicate,
}
use libp2pchannel.Adapter.{PeerState, is_quic_connected, frame_queue_cap}
use libp2pchannel.FrameQueue.{
  FrameQueue, empty_entry, empty_queue, drop_head, make_room, write_entry, frame_queue_push,
}

pub record IsValid (q : FrameQueue) : Type 0 where
  pub storage : length q.entries ≡ frame_queue_cap
  pub head_in : q.head < frame_queue_cap
  pub count_in : q.count ≤ frame_queue_cap

pub empty_queue-IsValid : IsValid empty_queue
unfolding empty_queue
empty_queue-IsValid = record {
  storage = length-replicate frame_queue_cap empty_entry;
  head_in = omega arith;
  count_in = omega arith;
}

pub drop_head-IsValid : {q : FrameQueue} → IsValid q → IsValid (drop_head q)
unfolding drop_head
drop_head-IsValid {q} v = ground (
  arith,
  length-set q.entries q.head (record (get_or q.entries q.head empty_entry) { bytes = none }),
)

-- After `make_room` there is a free entry.
pub make_room-IsValid :
    {q : FrameQueue} → IsValid q → IsValid (make_room q) × ((make_room q).count < frame_queue_cap)
unfolding make_room drop_head
make_room-IsValid {q} v = ground (
  arith,
  length-set q.entries q.head (record (get_or q.entries q.head empty_entry) { bytes = none }),
)

module _ (type flags seq timestamp_us : ℕ) (payload : List ℕ) (data_len : ℕ)
    (allocated : Bool) where
  write_entry-IsValid :
      {q : FrameQueue}
      → IsValid q
      → q.count < frame_queue_cap
      → IsValid (write_entry q type flags seq timestamp_us payload data_len allocated).0
  unfolding write_entry
  write_entry-IsValid {q} v h = grind (arith, length-set)

  -- `frame_queue_push` keeps the invariant on every branch.
  pub frame_queue_push-IsValid :
      {q : FrameQueue} (state : PeerState)
      → IsValid q
      → IsValid (frame_queue_push q state type flags seq timestamp_us payload data_len allocated).0
  unfolding frame_queue_push
  frame_queue_push-IsValid {q} state v = elim (Bool-cases (is_quic_connected state)) [
    | inl e ↦ rw e (write_entry-IsValid (make_room-IsValid v).0 (make_room-IsValid v).1)
    | inr e ↦ rw e v
  ]
