-- ===== src/PacketQueue/Trace.antt =====
-- Interleavings of the ICE threads' pushes and the engine thread's pops on one packet queue of
-- src/p2p/src/p2p_packet_queue.c.
use libp2pchannel.Prelude.{
  ℕ, ◌≡◌, refl, Option, some, List, [], ◌∷◌, arith, if◌then◌else◌, length, ℤ,
}
use libp2pchannel.PacketQueue.{PacketQueue, Status, success, failure, push, pop}
use libp2pchannel.PacketQueue.Inv.{
  IsValid, or_same, push_same, push_same-IsValid, pop-IsValid, capacity-pop,
}
use libp2pchannel.PacketQueue.Fifo.{Datagram, accepts}
use libp2pchannel.PacketQueue.Fifo
use libp2pchannel.PacketQueue.Refine.{contents, offered, out_datagram, push-Fifo_push, pop-Fifo_pop}

-- One call under the mutex: `push` of a whole buffer, or `pop`.
pub data Call : Type 0 where
  pushes : List ℕ → ℕ → ℤ → Call
  pops : Call

pub data Reply : Type 0 where
  accepted refused : Reply
  popped : Option Datagram → Reply

abbrev reply_of : Status → Reply
reply_of success = accepted
reply_of failure = refused

pub step : PacketQueue → Call → PacketQueue × Reply
step q (pushes payload time agent) =
    let (q', s) = push (some q) (some payload) (length payload) time agent in
    (or_same q q', reply_of s)
step q pops = let (q', out) = pop q in (q', popped (out_datagram out))

pub run : PacketQueue → List Call → List Reply
run q [] = []
run q (c ∷ cs) = let (q', r) = step q c in r ∷ run q' cs

-- The same calls on the list.
pub fifo_step : ℕ → List Datagram → Call → List Datagram × Reply
fifo_step capacity ds (pushes payload time agent) =
    let d : Datagram = offered payload (length payload) time agent in
    (Fifo.push capacity ds d, if accepts capacity ds d then accepted else refused)
fifo_step capacity ds pops = let (ds', out) = Fifo.pop ds in (ds', popped out)

pub fifo_run : ℕ → List Datagram → List Call → List Reply
fifo_run capacity ds [] = []
fifo_run capacity ds (c ∷ cs) =
    let (ds', r) = fifo_step capacity ds c in r ∷ fifo_run capacity ds' cs

-- One step of the queue is one step of the list.
step_refines :
    {q : PacketQueue} (c : Call)
    → IsValid q
    → (IsValid (step q c).0)
      × ((step q c).0.capacity ≡ q.capacity)
      × ((contents (step q c).0, (step q c).1) ≡ fifo_step q.capacity (contents q) c)
unfolding step fifo_step
step_refines {q} (pushes payload time agent) v = ground (
  arith,
  push_same q payload (length payload) time agent,
  push_same-IsValid payload (length payload) time agent v,
  push-Fifo_push payload (length payload) time agent v (omega arith),
)
step_refines {q} pops v = ground (arith, pop-IsValid v, capacity-pop q, pop-Fifo_pop v)

-- No sequence of pushes and pops tells a valid queue from the bounded list of its contents.
pub run-fifo_run :
    (cs : List Call) {q : PacketQueue} → IsValid q → run q cs ≡ fifo_run q.capacity (contents q) cs
unfolding run fifo_run
run-fifo_run [] v = refl
run-fifo_run (c ∷ cs) {q} v = let k = step_refines c v in ground (arith, k, run-fifo_run cs k.0)
