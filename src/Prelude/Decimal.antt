-- ===== src/Prelude/Decimal.antt =====
-- Numbers in decimal, as `printf` writes them with `%u`, and what `sscanf` reads with `%d`.
use Prim.Native.Nat.{ℕ, zero, suc, ◌+◌, ◌-◌, ◌*◌, ◌/◌, ◌%◌, ◌≤◌, ◌<◌}
use mathlib.Core.Path.{◌≡◌, refl, ap, ◌∙◌}
use native.Mathlib.Decide.{dec_lt}
use mathlib.Core.Bool.{Bool, true, false}
use mathlib.Core.List.{List, [], ◌∷◌, ◌++◌, append_assoc, append-nil}
use libp2pchannel.Prelude.Lists.{length, length-append}
use mathlib.Core.Option.{Option, none, some}
use native.Mathlib.Omega.{arith}
use libp2pchannel.Prelude.Tests.{ltb, ◌==◌, if◌then◌else◌, lt→ltb, ge→ltb}
use libp2pchannel.Prelude.Int.{ℤ, pos}
use libp2pchannel.Prelude.Text.{is_digit, is_space, read_digits, negate}

-- With as much fuel as the number has digits.
unfoldable pub digits : ℕ → ℕ → List ℕ
digits zero n = []
digits (suc fuel) n =
    let front = digits fuel (n / 10) in
    if ltb n 10 then (48 + n) ∷ [] else front ++ ((48 + n % 10) ∷ [])

-- `%u`
unfoldable pub decimal : ℕ → List ℕ
unfolding digits
decimal n = digits (suc n) n

abbrev pub digits_at : (ℕ → ℤ) → List ℕ → Option ℤ
digits_at sign [] = none
digits_at sign (c ∷ cs) = if is_digit c then some (sign (read_digits 0 (c ∷ cs))) else none

-- `sscanf(text, "%d", &n)`: white space, a sign, and one digit at least.
unfoldable pub scan_int : List ℕ → Option ℤ
unfolding read_digits
scan_int [] = none
scan_int (c ∷ cs) =
    let rest = scan_int cs in
    if is_space c
    then rest
    else if c == b'-'
    then digits_at negate cs
    else if c == b'+'
    then digits_at pos cs
    else digits_at pos (c ∷ cs)

abbrev pub starts_digit : List ℕ → Bool
starts_digit [] = false
starts_digit (c ∷ cs) = is_digit c

read_digits-end : (n : ℕ) (rest : List ℕ) → starts_digit rest ≡ false → read_digits n rest ≡ n
unfolding read_digits
read_digits-end n [] h = refl
read_digits-end n (c ∷ cs) h = ground arith

next_digit :
    (n : ℕ) (rest : List ℕ) → read_digits (n / 10) ((48 + n % 10) ∷ rest) ≡ read_digits n rest
unfolding read_digits
next_digit n rest =
    let e : n / 10 * 10 + (48 + n % 10 - 48) ≡ n = omega arith in
    ground (arith, ap (λ m. read_digits m rest) e)

first_digit :
    (n : ℕ) (rest : List ℕ) → n < 10 → read_digits 0 ((48 + n) ∷ rest) ≡ read_digits n rest
unfolding read_digits
first_digit n rest h =
    let e : 0 * 10 + (48 + n - 48) ≡ n = omega arith in
    ground (arith, ap (λ m. read_digits m rest) e)

read_digits-digits :
    (fuel n : ℕ) (rest : List ℕ)
    → n < fuel
    → read_digits 0 (digits fuel n ++ rest) ≡ read_digits n rest
unfolding digits
read_digits-digits zero n rest h = elim h [ ]
read_digits-digits (suc fuel) n rest h = elim (dec_lt n 10) [
  | yes small ↦ rw (lt→ltb n 10 small) (first_digit n rest small)
  | no big ↦
      rw (ge→ltb n 10 (omega (arith, big)), append_assoc)
        (read_digits-digits fuel (n / 10) ((48 + n % 10) ∷ rest) (omega (arith, big, h))
          ∙ next_digit n rest)
]

-- A number that is printed is read back, whatever other than a digit follows it.
pub read_digits-decimal :
    (n : ℕ) (rest : List ℕ) → starts_digit rest ≡ false → read_digits 0 (decimal n ++ rest) ≡ n
unfolding decimal
read_digits-decimal n rest h =
    read_digits-digits (suc n) n rest (omega arith) ∙ read_digits-end n rest h

digits-starts_digit :
    (fuel n : ℕ) (rest : List ℕ) → n < fuel → starts_digit (digits fuel n ++ rest) ≡ true
unfolding digits
digits-starts_digit zero n rest h = elim h [ ]
digits-starts_digit (suc fuel) n rest h = elim (dec_lt n 10) [
  | yes small ↦ rw (lt→ltb n 10 small) (ground (arith, small))
  | no big ↦
      rw (ge→ltb n 10 (omega (arith, big)), append_assoc)
        (digits-starts_digit fuel (n / 10) ((48 + n % 10) ∷ rest) (omega (arith, big, h)))
]

scan_int-starts_digit :
    (text : List ℕ) → starts_digit text ≡ true → scan_int text ≡ some (pos (read_digits 0 text))
unfolding scan_int
scan_int-starts_digit [] h = cc
scan_int-starts_digit (c ∷ cs) h = ground (arith, h)

-- `%d` reads back what `%u` writes.
pub scan_int-decimal : (n : ℕ) → scan_int (decimal n) ≡ some (pos n)
unfolding decimal
scan_int-decimal n =
    let starts = rw append-nil at (digits-starts_digit (suc n) n [] (omega arith)) in
    let value = rw append-nil at (read_digits-decimal n [] refl) in
    scan_int-starts_digit (decimal n) starts ∙ ap (λ m. some (pos m)) value

abbrev pub power_of_ten : ℕ → ℕ
power_of_ten zero = 1
power_of_ten (suc k) = 10 * power_of_ten k

pub length-digits : (k fuel n : ℕ) → n < power_of_ten (suc k) → length (digits fuel n) ≤ suc k
unfolding digits
length-digits k zero n h = omega arith
length-digits zero (suc fuel) n h = ground (arith, h)
length-digits (suc k) (suc fuel) n h = ground (
  arith,
  length-digits k fuel (n / 10) (omega (arith, h)),
  length-append (digits fuel (n / 10)) ((48 + n % 10) ∷ []),
)
