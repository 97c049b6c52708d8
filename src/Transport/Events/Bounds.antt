-- ===== src/Transport/Events/Bounds.antt =====
-- The event reader of src/p2p/src/p2p_tls.c on any input: it ends, and stays within its buffers.
use libp2pchannel.Prelude.{
  ℕ, zero, suc, ◌≤◌, ◌<◌, ◌≡◌, refl, ◌≢◌, inl, inr, true, Option, none, some, List, [], ◌∷◌, arith,
  Bool-cases, length, drop, length-append,
}
use libp2pchannel.Prelude.Text.{length-snprintf_s}
use libp2pchannel.Transport.{
  Answer, want, got, failed, read_byte, tls_read_line, p2p_tls_read, line_from, before_rest, c_str,
}
use libp2pchannel.Transport.Events.{
  Event, no_event, chop, take_field, skip_spaces, Outcome, ready, lost, has_event, after_line,
  after_chop, line_room, read_lines, p2p_sse_read_event,
}

p2p_tls_read-le : (ans : List Answer) → length (p2p_tls_read ans).1 ≤ length ans
unfolding p2p_tls_read
p2p_tls_read-le [] = omega arith
p2p_tls_read-le (want ∷ ans) = omega (arith, p2p_tls_read-le ans)
p2p_tls_read-le (got xs ∷ ans) = omega arith
p2p_tls_read-le (failed ∷ ans) = omega arith

-- A byte that is read takes an answer.
read_byte-shorter :
    (ans : List Answer) → (read_byte ans).0 ≢ none → length (read_byte ans).1 < length ans
unfolding p2p_tls_read
read_byte-shorter [] h = absurd (h refl)
read_byte-shorter (want ∷ ans) h = omega (arith, read_byte-shorter ans h)
read_byte-shorter (got xs ∷ ans) h = omega arith
read_byte-shorter (failed ∷ ans) h = omega arith

before_rest-le :
    (bytes : List ℕ) (r : Option (List ℕ) × List Answer)
    → length (before_rest bytes r).1 ≤ length r.1
before_rest-le bytes (none, ans) = omega arith
before_rest-le bytes (some more, ans) = omega arith

line_from-le :
    (f : List Answer → Option (List ℕ) × List Answer)
    → ((a : List Answer) → length (f a).1 ≤ length a)
    → (p : Option ℕ × List Answer) → length (line_from f p).1 ≤ length p.1
line_from-le f le (none, ans) = omega arith
line_from-le f le (some c, ans) = ground (arith, le ans, before_rest-le (c ∷ []) (f ans))

tls_read_line-le : (room : ℕ) (ans : List Answer) → length (tls_read_line room ans).1 ≤ length ans
unfolding tls_read_line
tls_read_line-le zero ans = omega arith
tls_read_line-le (suc room) ans = omega (
  arith,
  line_from-le (tls_read_line room) (tls_read_line-le room) (read_byte ans),
  p2p_tls_read-le ans,
)

line_from-some :
    (f : List Answer → Option (List ℕ) × List Answer) (p : Option ℕ × List Answer)
    → (line_from f p).0 ≢ none
    → p.0 ≢ none
line_from-some f (none, ans) h = absurd (h refl)
line_from-some f (some c, ans) h = ground arith

-- A line that is read takes an answer.
tls_read_line-shorter :
    (room : ℕ) (ans : List Answer)
    → (tls_read_line (suc room) ans).0 ≢ none
    → length (tls_read_line (suc room) ans).1 < length ans
unfolding tls_read_line
tls_read_line-shorter room ans h = omega (
  arith,
  line_from-le (tls_read_line room) (tls_read_line-le room) (read_byte ans),
  read_byte-shorter ans (line_from-some (tls_read_line room) (read_byte ans) h),
)

abbrev pub InBuffers : ℕ → ℕ → Event → Type 0
InBuffers et_sz ed_sz e = (length e.name < et_sz) × (length e.json < ed_sz)

take_field-InBuffers :
    (et_sz ed_sz : ℕ) (line : List ℕ) (e : Event)
    → InBuffers et_sz ed_sz e
    → InBuffers et_sz ed_sz (take_field et_sz ed_sz line e)
unfolding take_field
take_field-InBuffers et_sz ed_sz line e (n, d) =
    let val = skip_spaces (drop 5 line) in
    ground (
      arith,
      n,
      d,
      length-snprintf_s et_sz (skip_spaces (drop 6 line)) (omega (arith, n)),
      length-append e.json val,
    )

-- The reader has an event that its buffers hold, and has taken some of its input for it, or the
-- connection is lost.
pub data Settles (et_sz ed_sz : ℕ) (ans : List Answer) : Outcome → Type 0 where
  has_read :
      {e : Event} {rest : List Answer}
      → InBuffers et_sz ed_sz e
      → has_event e ≡ true
      → length rest < length ans
      → Settles et_sz ed_sz ans (ready e rest)
  has_lost : Settles et_sz ed_sz ans lost

Settles-longer :
    {et_sz ed_sz : ℕ} {ans : List Answer} {o : Outcome} (longer : List Answer)
    → length ans < length longer
    → Settles et_sz ed_sz ans o
    → Settles et_sz ed_sz longer o
Settles-longer longer h (has_read b e s) = has_read b e (omega (arith, s))
Settles-longer longer h has_lost = has_lost

module _ (et_sz ed_sz : ℕ) (ans : List Answer) (next : Event → List Answer → Outcome)
    (settles : (e : Event) (rest : List Answer)
      → InBuffers et_sz ed_sz e
      → length rest < length ans
      → Settles et_sz ed_sz ans (next e rest)) where
  after_chop-Settles :
      (e : Event) (line : List ℕ) (rest : List Answer)
      → InBuffers et_sz ed_sz e
      → length rest < length ans
      → Settles et_sz ed_sz ans (after_chop next et_sz ed_sz e line rest)
  after_chop-Settles e [] rest b s = elim (Bool-cases (has_event e)) [
    | inl h ↦ rw h (has_read b h s)
    | inr h ↦ rw h (settles e rest b s)
  ]
  after_chop-Settles e (c ∷ cs) rest b s =
      settles _ rest (take_field-InBuffers et_sz ed_sz (c_str (c ∷ cs)) e b) s

  after_line-Settles :
      (e : Event) (r : Option (List ℕ) × List Answer)
      → InBuffers et_sz ed_sz e
      → (r.0 ≢ none → length r.1 < length ans)
      → Settles et_sz ed_sz ans (after_line next et_sz ed_sz e r)
  after_line-Settles e (none, rest) b s = has_lost
  after_line-Settles e (some line, rest) b s = after_chop-Settles e (chop line) rest b (s (λ h. cc))

read_lines-Settles :
    (fuel et_sz ed_sz : ℕ) (e : Event) (ans : List Answer)
    → InBuffers et_sz ed_sz e
    → length ans < fuel
    → Settles et_sz ed_sz ans (read_lines fuel et_sz ed_sz e ans)
unfolding read_lines
read_lines-Settles zero et_sz ed_sz e ans b h = elim h [ ]
read_lines-Settles (suc fuel) et_sz ed_sz e ans b h =
    after_line-Settles et_sz ed_sz ans (read_lines fuel et_sz ed_sz)
      (λ e' rest b' s.
        Settles-longer ans s (read_lines-Settles fuel et_sz ed_sz e' rest b' (omega (arith, s, h))))
      e (tls_read_line line_room ans) b (tls_read_line-shorter 8190 ans)

-- On any input at all the event reader ends: it has an event, whose type and data fit their buffers with
-- the NUL and are not both empty, and has used up a part of its input; or the connection is lost. The
-- buffers have room for one byte at least.
pub p2p_sse_read_event-Settles :
    (et_sz ed_sz : ℕ) (ans : List Answer)
    → 0 < et_sz
    → 0 < ed_sz
    → Settles et_sz ed_sz ans (p2p_sse_read_event et_sz ed_sz ans)
unfolding p2p_sse_read_event
p2p_sse_read_event-Settles et_sz ed_sz ans n d =
    read_lines-Settles (suc (length ans)) et_sz ed_sz no_event ans (n, d) (omega arith)
