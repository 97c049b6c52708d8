-- ===== src/Jitter/Order.antt =====
-- The order in which the jitter buffer of src/p2p/src/p2p_adapter.c gives its frames out, where the frames
-- held lie within half the range of their sequence numbers.
use libp2pchannel.Prelude.{
  ℕ, ◌-◌, ◌^◌, ◌≤◌, ◌<◌, ◌≡◌, refl, ◌⊎◌, inl, inr, Bool, true, false, ◌&&◌, Option, none, some,
  List, [], ◌∷◌, arith, leb, ◌==◌, Bool-cases, length, get_or,
}
use libp2pchannel.Jitter.{
  Jitter, JitterFrame, zero_frame, older, is_ready, oldest_ready, empty_slot, take_slot, jitter_pop,
}
use libp2pchannel.Jitter.Serial.{offset, serial_le-offset}
use libp2pchannel.Jitter.Select.{AllKept, IsBest, select-IsBest}

-- `s` is a 32-bit number that follows `base` by less than half the range.
abbrev pub InWindow : ℕ → ℕ → Type 0
InWindow base s = (s < 2 ^ 32) × (offset base s < 2 ^ 31)

-- What holds of the sequence number of each valid frame.
abbrev pub AllFrames : (JitterFrame → Type 0) → List JitterFrame → Type 0
AllFrames P [] = Unit
AllFrames P (f ∷ fs) = P f × AllFrames P fs

abbrev pub Windowed : ℕ → List JitterFrame → Type 0
Windowed base fs = AllFrames (λ f. f.valid ≡ true → InWindow base f.seq) fs

-- What `p2p_video_jitter_pop` gives out: a valid and ready frame that no valid and ready frame
-- precedes, and its slot is emptied; or nothing, if no valid frame is ready.
abbrev pub Popped : ℕ → Jitter → ℕ → Jitter → Option JitterFrame → Type 0
Popped base jb now jb' none =
    (jb' ≡ jb)
    × ((jb.count ≡ 0) ⊎ AllFrames (λ f. (f.valid && is_ready jb now f) ≡ false) jb.frames)
Popped base jb now jb' (some f) =
    (f.valid ≡ true)
    × (is_ready jb now f ≡ true)
    × AllFrames (λ g. (g.valid && is_ready jb now g) ≡ true → offset base f.seq ≤ offset base g.seq)
        jb.frames
    × ((i : ℕ) × (i < length jb.frames)
        × (get_or jb.frames i zero_frame ≡ f)
        × (jb' ≡ empty_slot jb i))

module _ (base : ℕ) (in_range : base < 2 ^ 32) where
  -- The older a number, the larger its key.
  age : ℕ → ℕ
  age s = 2 ^ 32 - offset base s

  older-age : (m s : ℕ) → InWindow base m → InWindow base s → older m s ≡ leb (age m) (age s)
  unfolding age
  older-age m s wm ws = ground (arith, serial_le-offset base s m)

  AllKept-of_Windowed :
      (keep : JitterFrame → Bool) (fs : List JitterFrame)
      → ((f : JitterFrame) → keep f ≡ true → f.valid ≡ true)
      → Windowed base fs
      → AllKept keep older (InWindow base) age older-age (InWindow base) fs
  AllKept-of_Windowed keep [] h w = tt
  AllKept-of_Windowed keep (f ∷ fs) h w = ((λ e. w.0 (h f e)), AllKept-of_Windowed keep fs h w.1)

  AllFrames-of_AllKept :
      (jb : Jitter) (now m : ℕ) (fs : List JitterFrame)
      → Windowed base fs
      → AllKept
          (λ f. f.valid && is_ready jb now f)
          older
          (InWindow base)
          age
          older-age
          (λ s. age s ≤ age m)
          fs
      → AllFrames
          (λ g. (g.valid && is_ready jb now g) ≡ true → offset base m ≤ offset base g.seq)
          fs
  unfolding age
  AllFrames-of_AllKept jb now m [] w a = tt
  AllFrames-of_AllKept jb now m (f ∷ fs) w a =
      ((λ e. omega (arith, a.0 e)), AllFrames-of_AllKept jb now m fs w.1 a.1)

  none_ready :
      (jb : Jitter) (now : ℕ) (fs : List JitterFrame)
      → AllKept (λ f. f.valid && is_ready jb now f) older (InWindow base) age older-age (λ s. ⊥) fs
      → AllFrames (λ f. (f.valid && is_ready jb now f) ≡ false) fs
  none_ready jb now [] a = tt
  none_ready jb now (f ∷ fs) a = (
    elim (Bool-cases (f.valid && is_ready jb now f)) [ inl e ↦ absurd (a.0 e) | inr e ↦ e ],
    none_ready jb now fs a.1,
  )

  oldest_ready-IsBest :
      (jb : Jitter) (now : ℕ)
      → Windowed base jb.frames
      → IsBest
          (λ f. f.valid && is_ready jb now f)
          older
          (InWindow base)
          age
          older-age
          0
          none
          jb.frames
          (oldest_ready jb now)
  unfolding oldest_ready
  oldest_ready-IsBest jb now w =
      select-IsBest (λ f. f.valid && is_ready jb now f) older (InWindow base) age older-age 0 none
        jb.frames tt
        (AllKept-of_Windowed (λ f. f.valid && is_ready jb now f) jb.frames (λ f e. ground arith) w)

  best_slot :
      (jb : Jitter) (now k m : ℕ)
      → IsBest
          (λ f. f.valid && is_ready jb now f)
          older
          (InWindow base)
          age
          older-age
          0
          none
          jb.frames
          (some (k, m))
      → (k < length jb.frames)
        × (((get_or jb.frames k zero_frame).valid
              && is_ready jb now (get_or jb.frames k zero_frame))
            ≡ true)
        × ((get_or jb.frames k zero_frame).seq ≡ m)
  best_slot jb now k m (w, b, all, inl p) = cc
  best_slot jb now k m (w, b, all, inr (j, p, l, q, r)) =
      let e : k ≡ j = omega arith in rw e (l, q, r)

  take_slot-Popped :
      (jb : Jitter) (now : ℕ) (o : Option (ℕ × ℕ))
      → Windowed base jb.frames
      → oldest_ready jb now ≡ o
      → IsBest
          (λ f. f.valid && is_ready jb now f)
          older
          (InWindow base)
          age
          older-age
          0
          none
          jb.frames
          o
      → Popped base jb now (take_slot jb o).0 (take_slot jb o).1
  unfolding take_slot
  take_slot-Popped jb now none w e b = (refl, inr (none_ready jb now jb.frames b.1))
  take_slot-Popped jb now (some (k, m)) w e b =
      let (h, ok, s) = best_slot jb now k m b in
      (
        ground arith,
        ground arith,
        rw s (AllFrames-of_AllKept jb now m jb.frames w b.2),
        (k, h, refl, refl),
      )

-- `p2p_video_jitter_pop`, while the valid frames lie in one window of sequence numbers: it gives out a
-- valid, ready frame that comes first among the valid, ready frames, across the wrap of the numbers,
-- and empties just its slot; or it gives out nothing and changes nothing, when the buffer is empty or
-- no valid frame is ready.
pub jitter_pop-Popped :
    (base : ℕ) (jb : Jitter) (now : ℕ)
    → base < 2 ^ 32
    → Windowed base jb.frames
    → Popped base jb now (jitter_pop jb now).0 (jitter_pop jb now).1
unfolding jitter_pop
jitter_pop-Popped base jb now h w = elim (Bool-cases (jb.count == 0)) [
  | inl e ↦ rw e (refl, inl (ground arith))
  | inr e ↦ rw e (
      take_slot-Popped base h jb now (oldest_ready jb now) w refl
        (oldest_ready-IsBest base h jb now w))
]
