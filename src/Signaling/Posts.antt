-- ===== src/Signaling/Posts.antt =====
-- The queue of asynchronous posts of src/p2p/src/p2p_signaling.c: `post_signal_async` on any thread, and
-- the worker that takes the bodies out. A slot holds a body up to its NUL.
pub mod Laws
use libp2pchannel.Prelude.{
  ℕ, ◌+◌, ◌%◌, Bool, true, false, not, Option, none, some, List, [], ◌∷◌, ◌==◌, if◌then◌else◌,
  get_or, set,
}
use libp2pchannel.Prelude.Text.{snprintf_s}

-- `P2P_SIG_POST_QUEUE_SIZE` and `P2P_SIG_MAX_MSG_SIZE`
abbrev pub post_queue_size : ℕ
post_queue_size = 32

abbrev pub max_msg_size : ℕ
max_msg_size = 8192

-- The fields `post_queue`, `post_queue_head` and `post_queue_tail` of the client, and
-- `post_worker_running`.
pub record PostQueue : Type 0 where
  pub slots : List (List ℕ)
  pub head : ℕ
  pub tail : ℕ
  pub running : Bool

-- `post_signal_async`; the result 0 or -1 as a truth value.
unfoldable pub post_signal_async : List ℕ → PostQueue → PostQueue × Bool
post_signal_async body q =
    let next = (q.tail + 1) % post_queue_size in
    if not q.running
    then (q, false)
    else if next == q.head
    then (q, false)
    else (record q { slots = set q.slots q.tail (snprintf_s max_msg_size body); tail = next }, true)

-- The locked part of a round of `post_worker_func`: the body that it then posts. While the queue is
-- empty it waits, and a worker that is to stop takes nothing.
unfoldable pub take_body : PostQueue → PostQueue × Option (List ℕ)
take_body q =
    if not q.running
    then (q, none)
    else if q.head == q.tail
    then (q, none)
    else (record q { head = (q.head + 1) % post_queue_size }, some (get_or q.slots q.head []))

-- One step of a client: a call of `post_signal_async`, or a round of the worker.
pub data Step : Type 0 where
  posts : List ℕ → Step
  works : Step

-- What the steps accept and what the worker posts, each in order.
pub record Log : Type 0 where
  pub accepted : List (List ℕ)
  pub posted : List (List ℕ)

abbrev pub if_accepted : Bool → List ℕ → Log → Log
if_accepted ok body l =
    if ok then record l { accepted = snprintf_s max_msg_size body ∷ l.accepted } else l

abbrev pub if_taken : Option (List ℕ) → Log → Log
if_taken none l = l
if_taken (some body) l = record l { posted = body ∷ l.posted }

unfoldable pub run_steps : List Step → PostQueue → PostQueue × Log
run_steps [] q = (q, record { accepted = []; posted = [] })
run_steps (posts body ∷ steps) q =
    let (q', ok) = post_signal_async body q in
    let (q'', l) = run_steps steps q' in (q'', if_accepted ok body l)
run_steps (works ∷ steps) q =
    let (q', out) = take_body q in let (q'', l) = run_steps steps q' in (q'', if_taken out l)
