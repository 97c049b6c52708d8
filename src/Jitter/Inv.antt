-- ===== src/Jitter/Inv.antt =====
-- The representation invariant of the jitter buffer of src/p2p/src/p2p_adapter.c: `count` is the number
-- of valid slots.
use libp2pchannel.Prelude.{
  ℕ, zero, suc, ◌+◌, ◌≤◌, ◌<◌, ◌≡◌, refl, ap, ◌∙◌, ◌≢◌, ◌⊎◌, inl, inr, Bool, true, false, ◌&&◌,
  Option, none, some, List, [], ◌∷◌, arith, leb, ◌==◌, if◌then◌else◌, Bool-cases, Option-cases,
  length, get_or, set, length-set,
}
use native.Mathlib.Nat.{zero-add}
use libp2pchannel.Jitter.{
  cleared, empty_slot, Jitter, JitterFrame, Picture, zero_frame, jitter_size, drop_newest, newest,
  choose, select, free_slot, fill_slot, stored, jitter_push, take_slot, oldest_ready, jitter_pop,
  is_ready, newer, older,
}

unfoldable pub count_valid : List JitterFrame → ℕ
count_valid [] = 0
count_valid (f ∷ fs) = (if f.valid then 1 else 0) + count_valid fs

pub record IsValid (jb : Jitter) : Type 0 where
  pub slots : length jb.frames ≡ jitter_size
  pub counted : jb.count ≡ count_valid jb.frames

count_valid-le-length : (fs : List JitterFrame) → count_valid fs ≤ length fs
unfolding count_valid
count_valid-le-length [] = omega arith
count_valid-le-length (f ∷ fs) = ground (arith, count_valid-le-length fs)

-- Emptying a valid slot.
pub count_valid-set_invalid :
    (fs : List JitterFrame) (i : ℕ) (f : JitterFrame)
    → i < length fs
    → (get_or fs i zero_frame).valid ≡ true
    → f.valid ≡ false
    → count_valid (set fs i f) + 1 ≡ count_valid fs
unfolding count_valid
count_valid-set_invalid [] i f h v e = absurd (omega arith)
count_valid-set_invalid (g ∷ fs) zero f h v e = ground arith
count_valid-set_invalid (g ∷ fs) (suc i) f h v e = ground (arith, count_valid-set_invalid fs i f)

-- Filling a free slot.
pub count_valid-set_valid :
    (fs : List JitterFrame) (i : ℕ) (f : JitterFrame)
    → i < length fs
    → (get_or fs i zero_frame).valid ≡ false
    → f.valid ≡ true
    → count_valid (set fs i f) ≡ count_valid fs + 1
unfolding count_valid
count_valid-set_valid [] i f h v e = absurd (omega arith)
count_valid-set_valid (g ∷ fs) zero f h v e = ground arith
count_valid-set_valid (g ∷ fs) (suc i) f h v e = ground (arith, count_valid-set_valid fs i f)

-- Where not every slot is valid, the search finds one that is not.
pub free_slot_found :
    (i : ℕ) (fs : List JitterFrame)
    → count_valid fs < length fs
    → (j : ℕ) × (free_slot i fs ≡ some (i + j))
      × (j < length fs)
      × ((get_or fs j zero_frame).valid ≡ false)
unfolding count_valid free_slot
free_slot_found i [] h = absurd (omega arith)
free_slot_found i (f ∷ fs) h = elim (Bool-cases f.valid) [
  | inl e ↦
      let (j, p, q, r) = free_slot_found (i + 1) fs (ground arith) in
      (suc j, ground arith, omega arith, r)
  | inr e ↦ (0, ground arith, omega arith, e)
]

choose_cases :
    (better : ℕ → ℕ → Bool) (kept : Bool) (i seq : ℕ) (best : Option (ℕ × ℕ)) (k m : ℕ)
    → choose better kept i seq best ≡ some (k, m)
    → (best ≡ some (k, m)) ⊎ ((kept ≡ true) × (seq ≡ m) × (k ≡ i))
unfolding choose
choose_cases better kept i seq best k m e = ground arith

-- A loop that compares something finds a slot that takes part, if there is one before or in it.
pub select_found :
    (keep : JitterFrame → Bool) (better : ℕ → ℕ → Bool) (i : ℕ) (best : Option (ℕ × ℕ))
    (fs : List JitterFrame) (k m : ℕ)
    → select keep better i best fs ≡ some (k, m)
    → (best ≡ some (k, m))
      ⊎ ((j : ℕ) × (k ≡ i + j)
          × (j < length fs)
          × (keep (get_or fs j zero_frame) ≡ true)
          × ((get_or fs j zero_frame).seq ≡ m))
unfolding select
select_found keep better i best [] k m e = inl e
select_found keep better i best (f ∷ fs) k m e =
    elim (select_found keep better (i + 1) (choose better (keep f) i f.seq best) fs k m e) [
      | inl p ↦ elim (choose_cases better (keep f) i f.seq best k m p) [
        | inl q ↦ inl q
        | inr (q, r, t) ↦ inr (0, omega arith, omega arith, q, r)
      ]
      | inr (j, p, q, r, t) ↦ inr (suc j, omega arith, omega arith, r, t)
    ]

choose_some :
    (better : ℕ → ℕ → Bool) (kept : Bool) (i seq : ℕ) (best : Option (ℕ × ℕ))
    → (best ≢ none) ⊎ (kept ≡ true)
    → choose better kept i seq best ≢ none
unfolding choose
choose_some better kept i seq best h = ground arith

select_some :
    (keep : JitterFrame → Bool) (better : ℕ → ℕ → Bool) (i : ℕ) (best : Option (ℕ × ℕ))
    (fs : List JitterFrame)
    → best ≢ none
    → select keep better i best fs ≢ none
unfolding select
select_some keep better i best [] h = h
select_some keep better i best (f ∷ fs) h =
    select_some keep better (i + 1) _ fs (choose_some better (keep f) i f.seq best (inl h))

newest_from :
    (i : ℕ) (fs : List JitterFrame)
    → 0 < count_valid fs
    → select (λ f. f.valid) newer i none fs ≢ none
unfolding select count_valid choose
newest_from i [] h = absurd (omega arith)
newest_from i (f ∷ fs) h = elim (Bool-cases f.valid) [
  | inl e ↦ select_some (λ f. f.valid) newer (i + 1) _ fs (rw (e, choose) (λ p. cc))
  | inr e ↦ rw (e, choose) (newest_from (i + 1) fs (ground arith))
]

-- The search of `push` fails only if no slot is valid.
pub newest-ne-none : (fs : List JitterFrame) → 0 < count_valid fs → newest fs ≢ none
unfolding newest
newest-ne-none fs h = newest_from 0 fs h

-- Started with no best slot, the loop returns a slot of the list that takes part.
select_slot :
    (keep : JitterFrame → Bool) (better : ℕ → ℕ → Bool) (fs : List JitterFrame) (k m : ℕ)
    → select keep better 0 none fs ≡ some (k, m)
    → (k < length fs) × (keep (get_or fs k zero_frame) ≡ true)
select_slot keep better fs k m e = elim (select_found keep better 0 none fs k m e) [
  | inl p ↦ cc
  | inr (j, p, q, r, t) ↦
      (omega arith, ap (λ i. keep (get_or fs i zero_frame)) (p ∙ zero-add j) ∙ r)
]

newest_slot :
    (fs : List JitterFrame) (k m : ℕ)
    → newest fs ≡ some (k, m)
    → (k < length fs) × ((get_or fs k zero_frame).valid ≡ true)
unfolding newest
newest_slot fs k m e = select_slot (λ f. f.valid) newer fs k m e

pub oldest_ready_slot :
    (jb : Jitter) (now k m : ℕ)
    → oldest_ready jb now ≡ some (k, m)
    → (k < length jb.frames)
      × (((get_or jb.frames k zero_frame).valid && is_ready jb now (get_or jb.frames k zero_frame))
          ≡ true)
unfolding oldest_ready
oldest_ready_slot jb now k m e =
    select_slot (λ f. f.valid && is_ready jb now f) older jb.frames k m e

pub empty_slot-IsValid :
    {jb : Jitter} (i : ℕ)
    → IsValid jb
    → i < length jb.frames
    → (get_or jb.frames i zero_frame).valid ≡ true
    → IsValid (empty_slot jb i) × (suc (empty_slot jb i).count ≡ jb.count)
unfolding empty_slot
empty_slot-IsValid {jb} i v h e =
    let f : JitterFrame = cleared (get_or jb.frames i zero_frame) in
    let n = count_valid-set_invalid jb.frames i f h e refl in
    let l = length-set jb.frames i f in
    (record { slots = omega arith; counted = omega arith }, omega arith)

fill_slot-IsValid :
    {jb : Jitter} (f : JitterFrame)
    → IsValid jb
    → jb.count < jitter_size
    → f.valid ≡ true
    → IsValid (fill_slot jb f (free_slot 0 jb.frames))
unfolding fill_slot
fill_slot-IsValid {jb} f v h e =
    let (j, p, q, r) = free_slot_found 0 jb.frames (omega arith) in
    let n = count_valid-set_valid jb.frames (0 + j) f (omega arith) (rw zero-add r) e in
    let l = length-set jb.frames (0 + j) f in
    rw (p, fill_slot) (record { slots = omega arith; counted = omega arith })

drop_newest-IsValid :
    {jb : Jitter}
    → IsValid jb
    → 0 < jb.count
    → IsValid (drop_newest jb) × (suc (drop_newest jb).count ≡ jb.count)
unfolding drop_newest
drop_newest-IsValid {jb} v h = elim (Option-cases (newest jb.frames)) [
  | inl e ↦ absurd (newest-ne-none jb.frames (omega arith) e)
  | inr ((k, m), e) ↦
      let (h, valid) = newest_slot jb.frames k m e in
      rw (e, drop_newest) (empty_slot-IsValid k v h valid)
]

-- `p2p_video_jitter_push` keeps the invariant.
pub jitter_push-IsValid :
    {jb : Jitter} (p : Picture) (got_y got_u got_v : Bool)
    → IsValid jb
    → IsValid (jitter_push jb p got_y got_u got_v)
unfolding jitter_push
jitter_push-IsValid {jb} p got_y got_u got_v v = elim (Bool-cases (leb jitter_size jb.count)) [
  | inl e ↦
      let d = drop_newest-IsValid v (ground arith) in
      let l = count_valid-le-length jb.frames in
      rw e (fill_slot-IsValid (stored p got_y got_u got_v) d.0 (omega arith) refl)
  | inr e ↦ rw e (fill_slot-IsValid (stored p got_y got_u got_v) v (ground arith) refl)
]

take_slot-IsValid :
    {jb : Jitter} (now : ℕ)
    → IsValid jb
    → (o : Option (ℕ × ℕ)) → oldest_ready jb now ≡ o
    → IsValid (take_slot jb o).0
unfolding take_slot
take_slot-IsValid now v none e = v
take_slot-IsValid {jb} now v (some (k, m)) e =
    let (h, ok) = oldest_ready_slot jb now k m e in (empty_slot-IsValid k v h (ground arith)).0

-- `p2p_video_jitter_pop` keeps the invariant.
pub jitter_pop-IsValid : {jb : Jitter} (now : ℕ) → IsValid jb → IsValid (jitter_pop jb now).0
unfolding jitter_pop
jitter_pop-IsValid {jb} now v = elim (Bool-cases (jb.count == 0)) [
  | inl e ↦ rw e v
  | inr e ↦ rw e (take_slot-IsValid now v (oldest_ready jb now) refl)
]
