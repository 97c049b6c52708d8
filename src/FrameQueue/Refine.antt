-- ===== src/FrameQueue/Refine.antt =====
-- The frame send queue of src/p2p/src/p2p_adapter.c as a list of at most 32 entries, oldest first.
use libp2pchannel.Prelude.{
  ℕ, suc, ◌+◌, ◌-◌, ◌%◌, ◌<◌, ◌≡◌, refl, sym, ap, ◌∙◌, ◌≢◌, Bool, true, false, ◌&&◌, none, some,
  List, [], ◌∷◌, ◌++◌, arith, leb, if◌then◌else◌, length, get_or, set, take,
}
use libp2pchannel.Prelude.Circular.{
  ring_list, ring_list-push, ring_list-pop, ring_list-set_outside, length-ring_list,
}
use native.Mathlib.Nat.{mod-eq_of_lt}
use libp2pchannel.Adapter.{PeerState, is_quic_connected, frame_queue_cap}
use libp2pchannel.FrameQueue.{
  FrameEntry, FrameQueue, success, failure, empty_entry, drop_head, make_room, write_entry,
  frame_queue_push,
}
use libp2pchannel.FrameQueue.Inv.{IsValid, make_room-IsValid}

abbrev pub contents : FrameQueue → List FrameEntry
contents q = ring_list empty_entry q.entries frame_queue_cap q.head q.count

pub length-contents : (q : FrameQueue) → length (contents q) ≡ q.count
length-contents q = length-ring_list empty_entry q.entries frame_queue_cap q.head q.count

pub contents_of_count_zero : (q : FrameQueue) → q.count ≡ 0 → contents q ≡ []
contents_of_count_zero q e = ap (ring_list empty_entry q.entries frame_queue_cap q.head) e

pub contents-drop_head :
    {q : FrameQueue}
    → IsValid q
    → q.count ≢ 0
    → contents q ≡ get_or q.entries q.head empty_entry ∷ contents (drop_head q)
unfolding drop_head
contents-drop_head {q} v ne =
    rw (mod-eq_of_lt v.head_in) at
      (ring_list-pop empty_entry q.entries frame_queue_cap q.head q.count ne)
    ∙ ap (λ t. get_or q.entries q.head empty_entry ∷ t)
        (sym (
          ring_list-set_outside empty_entry q.entries frame_queue_cap
            ((q.head + 1) % frame_queue_cap) (q.count - 1) q.head 31
            (record (get_or q.entries q.head empty_entry) { bytes = none }) (omega arith)
            (omega arith) (omega arith)))

abbrev tail {ℓ} : {A : Type ℓ} → List A → List A
tail [] = []
tail (x ∷ xs) = xs

-- The oldest frame gives way when there are 32.
abbrev pub kept : List FrameEntry → List FrameEntry
kept es = if leb frame_queue_cap (length es) then tail es else es

contents-make_room : {q : FrameQueue} → IsValid q → contents (make_room q) ≡ kept (contents q)
unfolding make_room
contents-make_room {q} v =
    ground (arith, length-contents q, λ (ne : q.count ≢ 0). contents-drop_head v ne)

module _ (type flags seq timestamp_us : ℕ) (payload : List ℕ) (data_len : ℕ) where
  -- The frame that a caller hands over.
  abbrev pub offered : FrameEntry
  offered = record {
    type = type;
    flags = flags;
    seq = seq;
    timestamp_us = timestamp_us;
    bytes = some (take data_len payload);
    data_len = data_len;
  }

  contents-write_entry :
      {q : FrameQueue} (allocated : Bool)
      → IsValid q
      → q.count < frame_queue_cap
      → let (q', s) = write_entry q type flags seq timestamp_us payload data_len allocated in
        (contents q' ≡ (if allocated then contents q ++ (offered ∷ []) else contents q))
        × (s ≡ (if allocated then success else failure))
  unfolding write_entry
  contents-write_entry {q} true v h =
      let one_more : q.count + 1 ≡ suc q.count = omega arith in
      (
        ap
              (λ k.
                ring_list empty_entry (set q.entries ((q.head + q.count) % frame_queue_cap) offered)
                  frame_queue_cap q.head k)
              one_more
            ∙ ring_list-push empty_entry q.entries frame_queue_cap q.head q.count
                ((q.head + q.count) % frame_queue_cap) offered (omega arith) h refl,
        refl,
      )
  contents-write_entry {q} false v h = (
    ring_list-set_outside empty_entry q.entries frame_queue_cap q.head q.count
        ((q.head + q.count) % frame_queue_cap) q.count _ (omega arith) h refl,
    refl,
  )

  -- `frame_queue_push`: to a peer that is not QUIC connected nothing is queued. Otherwise a full queue
  -- first loses its oldest frame, and the new frame goes to the end just if `malloc` succeeds: without
  -- memory the call fails although the oldest frame is gone.
  pub contents-frame_queue_push :
      {q : FrameQueue} (state : PeerState) (allocated : Bool)
      → IsValid q
      → let (q', s) =
          frame_queue_push q state type flags seq timestamp_us payload data_len allocated in
        (contents q' ≡ (
          if is_quic_connected state
          then (if allocated then kept (contents q) ++ (offered ∷ []) else kept (contents q))
          else contents q))
        × (s ≡ (if is_quic_connected state && allocated then success else failure))
  unfolding frame_queue_push
  contents-frame_queue_push {q} state allocated v = ground (
    arith,
    contents-make_room v,
    make_room-IsValid v,
    λ (w : IsValid (make_room q)) (h : (make_room q).count < frame_queue_cap).
        contents-write_entry allocated w h,
  )
