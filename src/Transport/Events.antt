-- ===== src/Transport/Events.antt =====
-- The event reader of src/p2p/src/p2p_tls.c, and the reader thread of src/p2p/src/p2p_signaling.c
-- on top of it.
pub mod Laws
pub mod Stream
pub mod Wire
pub mod Bounds
use libp2pchannel.Prelude.{
  ℕ, zero, suc, ◌+◌, ◌-◌, ◌*◌, ◌/◌, ◌%◌, ◌^◌, ◌≤◌, ◌<◌, min, ◌≡◌, refl, sym, ap, ap₂, subst, ◌∙◌,
  ◌≡⟨◌⟩◌, ◌∎, ◌≢◌, ◌↔◌, ◌⊎◌, inl, inr, Bool, true, false, not, ◌&&◌, ◌||◌, Option, none, some, List,
  [], ◌∷◌, ◌++◌, map, append_assoc, append-nil, arith, dec_lt, dec_le, ℕ_discrete, ltb, leb, ◌==◌,
  if◌then◌else◌, ltb→lt, lt→ltb, ge→ltb, eq→==, ne→==, ==_iff, Bool-cases, Option-cases, length,
  get_elem?, get_or, set, take, drop, replicate, memcpy, length-append, length-set,
  length-replicate, length-take, length-drop, take-length, take-take-append, get_or-set_self,
  get_or-set_ne, ℤ, pos, negsuc, to_int64, to_uint64, is_negative, List-cases,
}
use libp2pchannel.Prelude.Text.{codes, starts_with, snprintf_s}
use libp2pchannel.Transport.{Answer, tls_read_line, c_str}
use libp2pchannel.Signaling.Dispatch.{Reading, read_event, read_failed, stopped}

-- `event_type` and `event_data` while an event is read; `data_off` is the length of the latter.
pub record Event : Type 0 where
  pub name : List ℕ
  pub json : List ℕ

abbrev pub no_event : Event
no_event = record { name = []; json = [] }

-- Does a line of this end have its last byte cut off?
abbrev pub ends_line : ℕ → Bool
ends_line c = c == b'\n' || c == 13

abbrev pub before : ℕ → List ℕ → List ℕ
before c [] = if ends_line c then [] else c ∷ []
before c (d ∷ ds) = c ∷ (d ∷ ds)

-- The line without the newlines and carriage returns at its end.
unfoldable pub chop : List ℕ → List ℕ
chop [] = []
chop (c ∷ cs) = before c (chop cs)

unfoldable pub skip_spaces : List ℕ → List ℕ
skip_spaces [] = []
skip_spaces (c ∷ cs) = let rest = skip_spaces cs in if c == b' ' then rest else c ∷ cs

-- A line `event:` or `data:`; a piece of data that does not fit is left out.
unfoldable pub take_field : ℕ → ℕ → List ℕ → Event → Event
unfolding skip_spaces
take_field et_sz ed_sz line e =
    let name = skip_spaces (drop 6 line) in
    let val = skip_spaces (drop 5 line) in
    if starts_with (codes "event:") line
    then record e { name = snprintf_s et_sz name }
    else if starts_with (codes "data:") line
    then (if ltb (length e.json + length val) ed_sz then record e { json = e.json ++ val } else e)
    else e

-- What `p2p_sse_read_event` returns: an event with the answers that are left, or -1. The loop of the model
-- is stuck when it has no fuel.
pub data Outcome : Type 0 where
  ready : Event → List Answer → Outcome
  lost : Outcome
  stuck : Outcome

abbrev pub has_event : Event → Bool
has_event e = ltb 0 (length e.name) || ltb 0 (length e.json)

-- An empty line ends an event, once there is one.
abbrev pub after_chop :
    (Event → List Answer → Outcome) → ℕ → ℕ → Event → List ℕ → List Answer → Outcome
after_chop next et_sz ed_sz e [] ans = if has_event e then ready e ans else next e ans
after_chop next et_sz ed_sz e (c ∷ cs) ans = next (take_field et_sz ed_sz (c_str (c ∷ cs)) e) ans

abbrev pub after_line :
    (Event → List Answer → Outcome) → ℕ → ℕ → Event → Option (List ℕ) × List Answer → Outcome
after_line next et_sz ed_sz e (none, ans) = lost
after_line next et_sz ed_sz e (some line, ans) = after_chop next et_sz ed_sz e (chop line) ans

-- `sizeof(line) - 1`
abbrev pub line_room : ℕ
line_room = 8191

-- The loop of `p2p_sse_read_event`. A line takes an answer at least.
unfoldable pub read_lines : ℕ → ℕ → ℕ → Event → List Answer → Outcome
unfolding take_field chop c_str
read_lines zero et_sz ed_sz e ans = stuck
read_lines (suc fuel) et_sz ed_sz e ans =
    after_line (read_lines fuel et_sz ed_sz) et_sz ed_sz e (tls_read_line line_room ans)

-- `p2p_sse_read_event`
unfoldable pub p2p_sse_read_event : ℕ → ℕ → List Answer → Outcome
unfolding read_lines
p2p_sse_read_event et_sz ed_sz ans = read_lines (suc (length ans)) et_sz ed_sz no_event ans

-- `event_type` and `event_data` of `sse_thread_func`
abbrev pub event_type_size : ℕ
event_type_size = 128

abbrev pub event_data_size : ℕ
event_data_size = 8192

-- Does the client run at the next test of `running`?
abbrev pub runs : List Bool → Bool
runs [] = false
runs (b ∷ bs) = b

abbrev pub reading_of : (List Answer → List Reading) → Bool → Outcome → List Reading
reading_of next running (ready e ans) = read_event e.name e.json ∷ next ans
reading_of next running lost = read_failed running ∷ []
reading_of next running stuck = []

-- What `sse_thread_func` meets; the list says what each test of `running` finds.
unfoldable pub readings : List Bool → List Answer → List Reading
unfolding p2p_sse_read_event
readings [] ans = []
readings (false ∷ bs) ans = stopped ∷ []
readings (true ∷ bs) ans =
    reading_of (readings bs) (runs bs) (p2p_sse_read_event event_type_size event_data_size ans)
