-- ===== src/PacketQueue/Refine.antt =====
-- The packet queue of src/p2p/src/p2p_packet_queue.c against the list of `Fifo`.
use libp2pchannel.Prelude.{
  ℕ, suc, ◌+◌, ◌-◌, ◌%◌, ◌≤◌, ◌<◌, ◌≡◌, ◌≢◌, ◌↔◌, refl, ap, ◌∙◌, true, Option, none, some, List, [],
  ◌∷◌, ◌++◌, map, length, length-take, take, drop, take-take-append, get_or, set, ℤ, arith,
}
use mathlib.Core.List.{map-append}
use native.Mathlib.Nat.{mod-eq_of_lt}
use libp2pchannel.Prelude.Circular.{ring_list, ring_list-push, ring_list-pop, length-ring_list}
use libp2pchannel.PacketQueue.{
  PacketQueue, Packet, success, zero_packet, filled, push_locked, push, pop,
}
use libp2pchannel.PacketQueue.Inv.{IsValid}
use libp2pchannel.PacketQueue.Fifo.{Datagram, accepts}
use libp2pchannel.PacketQueue.Fifo

abbrev pub datagram : Packet → Datagram
datagram p = record {
  payload = take p.size p.bytes;
  recv_time_us = p.recv_time_us;
  agent_idx = p.agent_idx;
}

abbrev pub contents : PacketQueue → List Datagram
contents q = map datagram (ring_list zero_packet q.buf q.capacity q.head q.count)

abbrev pub contents? : Option PacketQueue → List Datagram
contents? none = []
contents? (some q) = contents q

length-map {ℓ κ} :
    {A : Type ℓ} {B : Type κ} (f : A → B) (xs : List A) → length (map f xs) ≡ length xs
length-map f [] = refl
length-map f (x ∷ xs) = ap suc (length-map f xs)

pub length-contents : (q : PacketQueue) → length (contents q) ≡ q.count
length-contents q =
    length-map datagram (ring_list zero_packet q.buf q.capacity q.head q.count)
    ∙ length-ring_list zero_packet q.buf q.capacity q.head q.count

-- The datagram that a caller hands over.
abbrev pub offered : List ℕ → ℕ → ℕ → ℤ → Datagram
offered payload size time agent = record {
  payload = take size payload;
  recv_time_us = time;
  agent_idx = agent;
}

datagram-filled :
    (old : Packet) (payload : List ℕ) (size time : ℕ) (agent : ℤ)
    → size ≤ length payload
    → datagram (filled old payload size time agent) ≡ offered payload size time agent
datagram-filled old payload size time agent h = λ i. record {
  payload = take-take-append size payload (drop size old.bytes) h i;
  recv_time_us = time;
  agent_idx = agent;
}

contents-append :
    {q : PacketQueue} (x : Packet)
    → IsValid q
    → q.count < q.capacity
    → map datagram (ring_list zero_packet (set q.buf q.tail x) q.capacity q.head (suc q.count))
      ≡ contents q ++ (datagram x ∷ [])
contents-append {q} x v h =
    ap (map datagram) (
      ring_list-push zero_packet q.buf q.capacity q.head q.count q.tail x (omega arith) h v.tail_is)
    ∙ map-append datagram (ring_list zero_packet q.buf q.capacity q.head q.count) (x ∷ [])

-- `p2p_packet_queue_push` is the push of the bounded list: it appends exactly the first `size` bytes
-- with their time and agent, and reports success, just when the size is between 1 and 1500 and the
-- queue is not full; otherwise the queue holds what it held.
pub push-Fifo_push :
    {q : PacketQueue} (payload : List ℕ) (size time : ℕ) (agent : ℤ)
    → IsValid q
    → size ≤ length payload
    → let (q', s) = push (some q) (some payload) size time agent in
      let d = offered payload size time agent in
      (contents? q' ≡ Fifo.push q.capacity (contents q) d)
      × ((s ≡ success) ↔ (accepts q.capacity (contents q) d ≡ true))
unfolding push push_locked
push-Fifo_push {q} payload size time agent v h = ground (
  arith,
  length-contents q,
  length-take size payload,
  λ (c : q.count < q.capacity).
      contents-append (filled (get_or q.buf q.tail zero_packet) payload size time agent) v c,
  datagram-filled (get_or q.buf q.tail zero_packet) payload size time agent h,
)

abbrev pub out_datagram : Option Packet → Option Datagram
out_datagram none = none
out_datagram (some p) = some (datagram p)

contents-pop :
    {q : PacketQueue}
    → IsValid q
    → q.count ≢ 0
    → contents q
      ≡ datagram (get_or q.buf q.head zero_packet)
        ∷ contents (record q { head = (q.head + 1) % q.capacity; count = q.count - 1 })
contents-pop {q} v ne =
    ap (map datagram) (
      rw (mod-eq_of_lt v.head_in) at (ring_list-pop zero_packet q.buf q.capacity q.head q.count ne))

contents-empty : (q : PacketQueue) → q.count ≡ 0 → contents q ≡ []
contents-empty q e = ap (λ n. map datagram (ring_list zero_packet q.buf q.capacity q.head n)) e

-- `p2p_packet_queue_pop` is the pop of the list: it removes and returns the oldest datagram, and
-- fails only on the empty queue.
pub pop-Fifo_pop :
    {q : PacketQueue}
    → IsValid q
    → let (q', out) = pop q in
      let (rest, first) = Fifo.pop (contents q) in (contents q' ≡ rest) × (out_datagram out ≡ first)
unfolding pop
pop-Fifo_pop {q} v = ground (arith, λ (n : q.count ≢ 0). contents-pop v n, contents-empty q)
