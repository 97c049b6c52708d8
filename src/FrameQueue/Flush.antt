-- ===== src/FrameQueue/Flush.antt =====
-- Flushing and clearing the frame send queue of src/p2p/src/p2p_adapter.c.
use libp2pchannel.Prelude.{
  ℕ, zero, suc, ◌+◌, ◌-◌, ◌%◌, ◌^◌, ◌<◌, ◌≡◌, false, ◌==◌, refl, sym, ap, Bool, true, List, [], ◌∷◌,
  ◌++◌, arith, length, take-length,
}
use libp2pchannel.Prelude.{true, take-length, length}
use libp2pchannel.Adapter.FrameType
use libp2pchannel.FrameQueue.{
  FrameEntry, FrameQueue, MoqWrite, datachannel, Outlets, drop_head, write_of, flush_rounds, flush,
  clear_rounds, frame_queue_clear,
}
use libp2pchannel.FrameQueue.Inv.{IsValid, drop_head-IsValid}
use libp2pchannel.FrameQueue.Refine.{offered, contents, contents_of_count_zero, contents-drop_head}

-- The writes for a list of frames, oldest first.
unfoldable pub writes : Outlets → (FrameEntry → Bool) → List FrameEntry → List MoqWrite
writes o allocated [] = []
writes o allocated (e ∷ es) = write_of o e (allocated e) ++ writes o allocated es

count-drop_head : (q : FrameQueue) → (drop_head q).count ≡ q.count - 1
unfolding drop_head
count-drop_head q = refl

flush_rounds_lem :
    (n : ℕ) (o : Outlets) (allocated : FrameEntry → Bool) {q : FrameQueue}
    → IsValid q
    → q.count ≡ n
    → let (q', ws) = flush_rounds n o allocated q in
      (ws ≡ writes o allocated (contents q)) × (q'.count ≡ 0) × IsValid q'
unfolding flush_rounds writes
flush_rounds_lem zero o allocated {q} v e =
    (sym (ap (writes o allocated) (contents_of_count_zero q e)), e, v)
flush_rounds_lem (suc n) o allocated {q} v e = ground (
  arith,
  flush_rounds_lem n o allocated (drop_head-IsValid v) (omega (arith, count-drop_head q)),
  contents-drop_head v (omega arith),
)

-- `p2p_peer_flush_send_queue` makes exactly the writes of the queued frames, in the order in which
-- they were pushed, and leaves the queue empty and valid.
pub flush-writes :
    (o : Outlets) (allocated : FrameEntry → Bool) {q : FrameQueue}
    → IsValid q
    → let (q', ws) = flush o allocated q in
      (ws ≡ writes o allocated (contents q)) × (contents q' ≡ []) × IsValid q'
unfolding flush
flush-writes o allocated {q} v =
    let k = flush_rounds_lem q.count o allocated v refl in (k.0, contents_of_count_zero _ k.1, k.2)

clear_rounds_lem :
    (n : ℕ) {q : FrameQueue}
    → IsValid q
    → q.count ≡ n
    → IsValid (clear_rounds n q) × ((clear_rounds n q).count ≡ 0)
unfolding clear_rounds
clear_rounds_lem zero {q} v e = (v, e)
clear_rounds_lem (suc n) {q} v e =
    clear_rounds_lem n (drop_head-IsValid v) (omega (arith, count-drop_head q))

-- `frame_queue_clear` leaves a valid queue empty and valid.
pub frame_queue_clear-empty :
    {q : FrameQueue}
    → IsValid q
    → IsValid (frame_queue_clear q) × (contents (frame_queue_clear q) ≡ [])
unfolding frame_queue_clear
frame_queue_clear-empty {q} v =
    let k = clear_rounds_lem q.count v refl in (k.0, contents_of_count_zero _ k.1)

-- A single data message of less than 2^32 - 1 bytes, written to a ready data channel.
pub writes-data_message :
    (o : Outlets) (seq time : ℕ) (payload : List ℕ)
    → o.datachannel_ready ≡ true
    → length payload + 1 < 2 ^ 32
    → writes o (λ e. true) (offered FrameType.data_msg 0 seq time payload (length payload) ∷ [])
      ≡ datachannel (FrameType.data_msg ∷ payload) ∷ []
unfolding writes write_of
writes-data_message o seq time payload r h =
    let small : ((1 + length payload) % 2 ^ 32 == 0) ≡ false = ground arith in
    rw (r, take-length, small)
      (ap (λ t. datachannel (FrameType.data_msg ∷ t) ∷ []) (take-length payload))
