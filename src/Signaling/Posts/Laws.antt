-- ===== src/Signaling/Posts/Laws.antt =====
-- The queue of asynchronous posts of src/p2p/src/p2p_signaling.c as a list of the bodies that wait.
use libp2pchannel.Prelude.{
  ℕ, suc, ◌+◌, ◌-◌, ◌%◌, ◌<◌, ◌≡◌, ◌≢◌, ◌∙◌, ap, sym, Option, none, some, List, [], ◌∷◌, ◌++◌,
  append_assoc, append-nil, arith, length, length-set, get_or, set, ltb, ◌&&◌, if◌then◌else◌,
}
use libp2pchannel.Prelude.Circular.{ring_list, ring_list-push, ring_list-pop, length-ring_list}
use libp2pchannel.Prelude.Text.{snprintf_s}
use native.Mathlib.Nat.{mod-eq_of_lt}
use libp2pchannel.Signaling.Posts.{
  post_queue_size, max_msg_size, PostQueue, post_signal_async, take_body, Step, posts, works,
  run_steps,
}

pub record IsValid (q : PostQueue) : Type 0 where
  pub storage : length q.slots ≡ post_queue_size
  pub head_in : q.head < post_queue_size
  pub tail_in : q.tail < post_queue_size

-- How many bodies wait.
abbrev pub waiting : PostQueue → ℕ
waiting q = (q.tail + 32 - q.head) % 32

abbrev pub contents : PostQueue → List (List ℕ)
contents q = ring_list [] q.slots post_queue_size q.head (waiting q)

-- The bodies that a round takes out.
abbrev pub taken : Option (List ℕ) → List (List ℕ)
taken none = []
taken (some body) = body ∷ []

pub post_signal_async-IsValid :
    {q : PostQueue} (body : List ℕ) → IsValid q → IsValid (post_signal_async body q).0
unfolding post_signal_async
post_signal_async-IsValid {q} body v =
    ground (arith, length-set q.slots q.tail (snprintf_s max_msg_size body))

pub take_body-IsValid : {q : PostQueue} → IsValid q → IsValid (take_body q).0
unfolding take_body
take_body-IsValid {q} v = ground arith

posted_last :
    {q : PostQueue} (x : List ℕ)
    → IsValid q
    → (q.tail + 1) % 32 ≢ q.head
    → contents (record q { slots = set q.slots q.tail x; tail = (q.tail + 1) % 32 })
      ≡ contents q ++ (x ∷ [])
posted_last {q} x v ne =
    let more : ((q.tail + 1) % 32 + 32 - q.head) % 32 ≡ suc (waiting q) =
      omega (arith, v.head_in, v.tail_in) in
    ap (ring_list [] (set q.slots q.tail x) post_queue_size q.head) more
    ∙ ring_list-push [] q.slots post_queue_size q.head (waiting q) q.tail x
        (omega (arith, v.storage)) (omega (arith, v.head_in, v.tail_in))
        (omega (arith, v.head_in, v.tail_in))

taken_first :
    {q : PostQueue}
    → IsValid q
    → q.head ≢ q.tail
    → contents q ≡ get_or q.slots q.head [] ∷ contents (record q { head = (q.head + 1) % 32 })
taken_first {q} v ne =
    let less : waiting q - 1 ≡ (q.tail + 32 - (q.head + 1) % 32) % 32 =
      omega (arith, v.head_in, v.tail_in) in
    let some_wait : waiting q ≢ 0 = λ z. ne (omega (arith, v.head_in, v.tail_in)) in
    rw (mod-eq_of_lt v.head_in) at
      (ring_list-pop [] q.slots post_queue_size q.head (waiting q) some_wait)
    ∙ ap
        (λ n. get_or q.slots q.head [] ∷ ring_list [] q.slots post_queue_size ((q.head + 1) % 32) n)
        less

-- `post_signal_async` of a running client accepts a body just if fewer than 31 wait, and then puts the
-- body, cut to its slot, behind those that wait; otherwise nothing changes.
pub contents-post_signal_async :
    {q : PostQueue} (body : List ℕ)
    → IsValid q
    → let (q', ok) = post_signal_async body q in
      (ok ≡ (q.running && ltb (length (contents q)) 31))
      × (contents q'
          ≡ (if ok then contents q ++ (snprintf_s max_msg_size body ∷ []) else contents q))
unfolding post_signal_async
contents-post_signal_async {q} body v = ground (
  arith,
  length-ring_list [] q.slots post_queue_size q.head (waiting q),
  λ (ne : (q.tail + 1) % 32 ≢ q.head). posted_last (snprintf_s max_msg_size body) v ne,
)

-- A round of the worker takes out the oldest body and leaves the others, just if the client runs and
-- a body waits; otherwise it leaves all.
pub contents-take_body :
    {q : PostQueue}
    → IsValid q
    → let (q', out) = take_body q in
      (contents q ≡ taken out ++ contents q')
      × (length (taken out) ≡ (if q.running && ltb 0 (length (contents q)) then 1 else 0))
unfolding take_body
contents-take_body {q} v = ground (
  arith,
  length-ring_list [] q.slots post_queue_size q.head (waiting q),
  λ (ne : q.head ≢ q.tail). taken_first v ne,
)

-- Whatever the interleaving of posts and worker rounds, the bodies that the worker posts, followed by
-- those that still wait, are those that waited at first followed by the accepted ones: none is lost,
-- doubled or overtaken. The queue stays valid.
pub run_steps-in_order :
    (steps : List Step) {q : PostQueue}
    → IsValid q
    → let (q', l) = run_steps steps q in
      (l.posted ++ contents q' ≡ contents q ++ l.accepted) × IsValid q'
unfolding run_steps
run_steps-in_order [] {q} v = (sym (append-nil (contents q)), v)
run_steps-in_order (posts body ∷ steps) {q} v = ground (
  arith,
  post_signal_async-IsValid body v,
  contents-post_signal_async body v,
  run_steps-in_order steps (post_signal_async-IsValid body v),
  append_assoc (contents q) (snprintf_s max_msg_size body ∷ [])
      (run_steps steps (post_signal_async body q).0).1.accepted,
)
run_steps-in_order (works ∷ steps) {q} v =
    ground (arith, contents-take_body v, run_steps-in_order steps (take_body-IsValid v))
