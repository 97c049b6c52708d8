-- ===== src/Jitter/Select.antt =====
-- The loop of src/p2p/src/p2p_adapter.c that keeps the best slot, where the comparison is a total preorder
-- on the sequence numbers that take part.
use libp2pchannel.Prelude.{
  ℕ, suc, ◌+◌, ◌≤◌, ◌<◌, ◌≡◌, refl, ◌⊎◌, inl, inr, Bool, true, false, Option, none, some, List, [],
  ◌∷◌, arith, leb, Bool-cases, length, get_or,
}
use native.Mathlib.Nat.{le_refl}
use libp2pchannel.Jitter.{JitterFrame, zero_frame, choose, select}

module _ (keep : JitterFrame → Bool) (better : ℕ → ℕ → Bool) (W : ℕ → Type 0) (key : ℕ → ℕ)
    (by_key : (m s : ℕ) → W m → W s → better m s ≡ leb (key m) (key s)) where
  -- `P` holds of the sequence number of every frame that takes part.
  abbrev pub AllKept : (ℕ → Type 0) → List JitterFrame → Type 0
  AllKept P [] = Unit
  AllKept P (f ∷ fs) = (keep f ≡ true → P f.seq) × AllKept P fs

  abbrev Known : Option (ℕ × ℕ) → Type 0
  Known none = Unit
  Known (some (k, m)) = W m

  -- Slot `k`, with number `m`, is the frame `k - i` of the list, and takes part.
  abbrev pub At : ℕ → List JitterFrame → ℕ → ℕ → Type 0
  At i frames k m =
      (j : ℕ) × (k ≡ i + j)
      × (j < length frames)
      × (keep (get_or frames j zero_frame) ≡ true)
      × ((get_or frames j zero_frame).seq ≡ m)

  abbrev Beats : ℕ → Option (ℕ × ℕ) → Type 0
  Beats m none = Unit
  Beats m (some (k, n)) = key n ≤ key m

  abbrev pub IsBest : ℕ → Option (ℕ × ℕ) → List JitterFrame → Option (ℕ × ℕ) → Type 0
  IsBest i best frames none = (best ≡ none) × AllKept (λ s. ⊥) frames
  IsBest i best frames (some (k, m)) =
      W m
      × Beats m best
      × AllKept (λ s. key s ≤ key m) frames
      × ((best ≡ some (k, m)) ⊎ At i frames k m)

  select_start : (i : ℕ) (best : Option (ℕ × ℕ)) → Known best → IsBest i best [] best
  select_start i none w = (refl, tt)
  select_start i (some (k, m)) w = (w, le_refl (key m), tt, inl refl)

  choose-Known :
      (kept : Bool) (i seq : ℕ) (best : Option (ℕ × ℕ))
      → Known best
      → (kept ≡ true → W seq)
      → Known (choose better kept i seq best)
  unfolding choose
  choose-Known true i seq none w h = h refl
  choose-Known false i seq none w h = tt
  choose-Known true i seq (some (k, m)) w h = elim (Bool-cases (better m seq)) [
    | inl e ↦ rw e (h refl)
    | inr e ↦ rw e w
  ]
  choose-Known false i seq (some (k, m)) w h = w

  At-next :
      (i : ℕ) (f : JitterFrame) (fs : List JitterFrame) (k m : ℕ)
      → At (i + 1) fs k m
      → At i (f ∷ fs) k m
  At-next i f fs k m (j, e, l, p, q) = (suc j, omega arith, omega arith, p, q)

  Beats-trans : (best : Option (ℕ × ℕ)) (n m : ℕ) → key n ≤ key m → Beats n best → Beats m best
  Beats-trans none n m h b = tt
  Beats-trans (some (k, l)) n m h b = omega arith

  -- The first frame became the best slot.
  took_first :
      (i : ℕ) (f : JitterFrame) (fs : List JitterFrame) (best : Option (ℕ × ℕ)) (k' m' : ℕ)
      → keep f ≡ true
      → Beats f.seq best
      → IsBest (i + 1) (some (i, f.seq)) fs (some (k', m'))
      → IsBest i best (f ∷ fs) (some (k', m'))
  took_first i f fs best k' m' e beats (w, b, all, inl p) = (
    w,
    Beats-trans best f.seq m' b beats,
    ((λ q. b), all),
    inr (0, ground arith, omega arith, e, ground arith),
  )
  took_first i f fs best k' m' e beats (w, b, all, inr p) =
      (w, Beats-trans best f.seq m' b beats, ((λ q. b), all), inr (At-next i f fs k' m' p))

  -- The best slot so far stayed.
  kept-IsBest :
      (i : ℕ) (f : JitterFrame) (fs : List JitterFrame) (best : Option (ℕ × ℕ)) (k' m' : ℕ)
      → (keep f ≡ true → Beats m' best → key f.seq ≤ key m')
      → IsBest (i + 1) best fs (some (k', m'))
      → IsBest i best (f ∷ fs) (some (k', m'))
  kept-IsBest i f fs best k' m' h (w, b, all, inl p) = (w, b, ((λ e. h e b), all), inl p)
  kept-IsBest i f fs best k' m' h (w, b, all, inr p) =
      (w, b, ((λ e. h e b), all), inr (At-next i f fs k' m' p))

  -- What the best slot of the rest says of the whole list.
  step-IsBest :
      (i : ℕ) (best : Option (ℕ × ℕ)) (f : JitterFrame) (fs : List JitterFrame) (r : Option (ℕ × ℕ))
      → Known best
      → (keep f ≡ true → W f.seq)
      → IsBest (i + 1) (choose better (keep f) i f.seq best) fs r
      → IsBest i best (f ∷ fs) r
  unfolding choose
  step-IsBest i none f fs none w h b = ground arith
  step-IsBest i (some (k, m)) f fs none w h b = ground arith
  step-IsBest i none f fs (some (k', m')) w h b = elim (Bool-cases (keep f)) [
    | inl e ↦ took_first i f fs none k' m' e tt (rw (e, choose) at b)
    | inr e ↦ kept-IsBest i f fs none k' m' (λ p. cc) (rw (e, choose) at b)
  ]
  step-IsBest i (some (k, m)) f fs (some (k', m')) w h b = elim (Bool-cases (keep f)) [
    | inl e ↦ elim (Bool-cases (better m f.seq)) [
      | inl g ↦
          took_first i f fs (some (k, m)) k' m' e (ground (arith, by_key m f.seq w (h e)))
            (rw (e, g, choose) at b)
      | inr g ↦
          kept-IsBest i f fs (some (k, m)) k' m' (λ _ q. ground (arith, by_key m f.seq w (h e)))
            (rw (e, g, choose) at b)
    ]
    | inr e ↦ kept-IsBest i f fs (some (k, m)) k' m' (λ p. cc) (rw (e, choose) at b)
  ]

  pub select-IsBest :
      (i : ℕ) (best : Option (ℕ × ℕ)) (frames : List JitterFrame)
      → Known best
      → AllKept W frames
      → IsBest i best frames (select keep better i best frames)
  unfolding select
  select-IsBest i best [] w all = select_start i best w
  select-IsBest i best (f ∷ fs) w all = step-IsBest i best f fs _ w all.0 (
      select-IsBest (i + 1) (choose better (keep f) i f.seq best) fs
        (choose-Known (keep f) i f.seq best w all.0) all.1)
