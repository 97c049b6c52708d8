-- ===== src/Prelude/Circular.antt =====
-- A circular array read as a list: the elements from index `h` on, each index taken modulo the
-- sizeacity. The packet queue, the frame send queue and the asynchronous POST queue are such arrays.
use Prim.Native.Nat.{ℕ, zero, suc, ◌+◌, ◌-◌, ◌%◌, ◌≤◌, ◌<◌}
use mathlib.Core.Path.{◌≡◌, refl, ap, ap₂, ◌∙◌, sym}
use mathlib.Core.Logic.{◌≢◌}
use mathlib.Core.List.{List, [], ◌∷◌, ◌++◌}
use native.Mathlib.Nat.{mod-add-mod, mod-eq_of_lt, mod-eq-sub-mod, mod-lt, mod-mod}
use native.Mathlib.Decide.{dec_lt}
use native.Mathlib.Omega.{arith}
use libp2pchannel.Prelude.Lists.{length, get_or, set, get_or-set_self, get_or-set_ne}

module _ {ℓ} {A : Type ℓ} (d : A) where
  abbrev pub ring_list : List A → ℕ → ℕ → ℕ → List A
  ring_list buf size h zero = []
  ring_list buf size h (suc n) = get_or buf (h % size) d ∷ ring_list buf size (h + 1) n

  pub length-ring_list : (buf : List A) (size h n : ℕ) → length (ring_list buf size h n) ≡ n
  length-ring_list buf size h zero = refl
  length-ring_list buf size h (suc n) = ap suc (length-ring_list buf size (h + 1) n)

-- Less than one round further on, the index is another one.
pub mod_distinct : (size a k : ℕ) → 0 < k → k < size → (a + k) % size ≢ a % size
mod_distinct size a k hk hc = elim (dec_lt (a % size + k) size) [
  | yes p ↦ omega (arith, mod-add-mod a size k, mod-eq_of_lt {n = a % size + k} {m = size} p)
  | no p ↦ omega (
    arith,
    mod-add-mod a size k,
    mod-eq-sub-mod {n = a % size + k} {m = size} (omega arith),
    mod-eq_of_lt {n = a % size + k - size} {m = size}
        (omega (arith, mod-lt a {m = size} (omega arith))),
    mod-lt a {m = size} (omega arith),
  )
]

module _ {ℓ} {A : Type ℓ} (d : A) where
  -- A start index may be reduced: the code stores `(head + 1) % size`.
  pub ring_list-mod :
      (buf : List A) (size h n : ℕ) → ring_list d buf size (h % size) n ≡ ring_list d buf size h n
  ring_list-mod buf size h zero = refl
  ring_list-mod buf size h (suc n) = ap₂ ◌∷◌ (ap (λ i. get_or buf i d) (mod-mod h size)) (
      sym (ring_list-mod buf size (h % size + 1) n)
      ∙ ap (λ i. ring_list d buf size i n) (mod-add-mod h size 1)
      ∙ ring_list-mod buf size (h + 1) n)

  -- A write past the elements leaves them as they are.
  pub ring_list-set_outside :
      (buf : List A) (size h n i m : ℕ) (x : A)
      → n ≤ m
      → m < size
      → i ≡ (h + m) % size
      → ring_list d (set buf i x) size h n ≡ ring_list d buf size h n
  ring_list-set_outside buf size h zero i m x hn hm e = refl
  ring_list-set_outside buf size h (suc n) i m x hn hm e =
      ap₂ ◌∷◌ (get_or-set_ne buf i (h % size) x d (rw e (mod_distinct size h m (omega arith) hm))) (
        ring_list-set_outside buf size (h + 1) n i (m - 1) x (omega arith) (omega arith)
          (e ∙ ap (λ t. t % size) (omega arith)))

  -- A write at the index just past the elements appends the element written.
  pub ring_list-push :
      (buf : List A) (size h n i : ℕ) (x : A)
      → size ≤ length buf
      → n < size
      → i ≡ (h + n) % size
      → ring_list d (set buf i x) size h (suc n) ≡ ring_list d buf size h n ++ (x ∷ [])
  ring_list-push buf size h zero i x hb hn e =
      ap (λ t. t ∷ [])
        (ap (λ j. get_or (set buf i x) j d) (ap (λ t. t % size) (omega arith) ∙ sym e)
          ∙ get_or-set_self buf i x d (omega (arith, mod-lt (h + 0) {m = size} hn)))
  ring_list-push buf size h (suc n) i x hb hn e =
      ap₂ ◌∷◌
        (get_or-set_ne buf i (h % size) x d (rw e (mod_distinct size h (suc n) (omega arith) hn)))
        (ring_list-push buf size (h + 1) n i x hb (omega arith)
          (e ∙ ap (λ t. t % size) (omega arith)))

  -- The code tests `count == 0` and decrements; the list matches on `suc`.
  pub ring_list-pop :
      (buf : List A) (size h n : ℕ)
      → n ≢ 0
      → ring_list d buf size (h % size) n
        ≡ get_or buf (h % size) d ∷ ring_list d buf size ((h + 1) % size) (n - 1)
  ring_list-pop buf size h zero p = absurd (p refl)
  ring_list-pop buf size h (suc n) p =
      ring_list-mod buf size h (suc n)
      ∙ ap (λ t. get_or buf (h % size) d ∷ t)
          (sym (ring_list-mod buf size (h + 1) n)
            ∙ ap (λ k. ring_list d buf size ((h + 1) % size) k) (omega arith))
