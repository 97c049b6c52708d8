-- ===== src/PacketQueue/Inv.antt =====
-- The representation invariant of the packet queue of src/p2p/src/p2p_packet_queue.c.
use libp2pchannel.Prelude.{
  ℕ, zero, suc, ◌+◌, ◌-◌, ◌%◌, ◌≤◌, ◌<◌, ◌≡◌, Bool, Option, none, some, List, length, length-set,
  length-replicate, ℤ, pos, negsuc, arith, get_or,
}
use native.Mathlib.Nat.{mod-lt, mod-add-mod}
use libp2pchannel.PacketQueue.{
  PacketQueue, success, zero_packet, filled, init, push_locked, push, pop,
}

pub record IsValid (q : PacketQueue) : Type 0 where
  pub positive : 0 < q.capacity
  pub storage : length q.buf ≡ q.capacity
  pub head_in : q.head < q.capacity
  pub tail_is : q.tail ≡ (q.head + q.count) % q.capacity
  pub count_in : q.count ≤ q.capacity

pub tail_in : {q : PacketQueue} → IsValid q → q.tail < q.capacity
tail_in {q} v = omega (arith, mod-lt (q.head + q.count) v.positive)

-- `p2p_packet_queue_init` that succeeds leaves a valid, empty queue of the capacity asked for.
pub init-IsValid :
    (q r : PacketQueue) (capacity : ℤ) (allocated : Bool)
    → init (some q) capacity allocated ≡ (some r, success)
    → IsValid r × (r.count ≡ 0) × (capacity ≡ pos r.capacity)
unfolding init
init-IsValid q r (negsuc n) allocated e = ground arith
init-IsValid q r (pos zero) allocated e = ground arith
init-IsValid q r (pos (suc n)) allocated e = ground (arith, length-replicate n zero_packet)

-- The locked part of a push keeps the invariant.
pub push_locked-IsValid :
    {q : PacketQueue} (payload : List ℕ) (size time : ℕ) (agent : ℤ)
    → IsValid q
    → IsValid (push_locked q payload size time agent).0
unfolding push_locked
push_locked-IsValid {q} payload size time agent v = ground (
  arith,
  length-set q.buf q.tail (filled (get_or q.buf q.tail zero_packet) payload size time agent),
  mod-add-mod (q.head + q.count) q.capacity 1,
)

pub pop-IsValid : {q : PacketQueue} → IsValid q → IsValid (pop q).0
unfolding pop
pop-IsValid {q} v =
    ground
      (arith, mod-lt (q.head + 1) v.positive, mod-add-mod (q.head + 1) q.capacity (q.count - 1))

pub pop-count : (q : PacketQueue) → (pop q).0.count ≡ q.count - 1
unfolding pop
pop-count q = ground arith

pub capacity-pop : (q : PacketQueue) → (pop q).0.capacity ≡ q.capacity
unfolding pop
capacity-pop q = ground arith

-- The queue lives as long as the engine, so the pointer stays non-NULL.
abbrev pub or_same : PacketQueue → Option PacketQueue → PacketQueue
or_same q none = q
or_same q (some r) = r

pub push_same :
    (q : PacketQueue) (payload : List ℕ) (size time : ℕ) (agent : ℤ)
    → let q' = (push (some q) (some payload) size time agent).0 in
      (q' ≡ some (or_same q q')) × ((or_same q q').capacity ≡ q.capacity)
unfolding push push_locked
push_same q payload size time agent = ground arith

pub push_same-IsValid :
    {q : PacketQueue} (payload : List ℕ) (size time : ℕ) (agent : ℤ)
    → IsValid q
    → IsValid (or_same q (push (some q) (some payload) size time agent).0)
unfolding push
push_same-IsValid {q} payload size time agent v =
    ground (arith, push_locked-IsValid payload size time agent v)
