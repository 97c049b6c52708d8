-- ===== src/Prelude/Text.antt =====
-- C strings as the list of their bytes before the terminating NUL, and the functions of the C
-- library that the sources call on them.
use Prim.Native.Nat.{ℕ, zero, suc, ◌+◌, ◌-◌, ◌*◌, ◌<◌}
use Prim.Native.Char.{code}
use Prim.Native.String.{String}
use mathlib.Core.Path.{◌≡◌, refl}
use mathlib.Core.Logic.{◌↔◌}
use mathlib.Core.Bool.{Bool, true, false, ◌&&◌, ◌||◌}
use mathlib.Core.List.{List, [], ◌∷◌, ◌++◌}
use mathlib.Core.Option.{Option, none, some}
use native.Mathlib.Omega.{arith}
use libp2pchannel.Prelude.Tests.{leb, ◌==◌, if◌then◌else◌}
use libp2pchannel.Prelude.Lists.{length, drop}
use libp2pchannel.Prelude.Int.{ℤ, pos, negsuc}

-- The bytes of an ASCII literal.
abbrev pub codes : String → List ℕ
codes String.[] = []
codes (String.◌∷◌ c s) = code c ∷ codes s

-- `strcmp(a, b) == 0`
unfoldable pub bytes_eq : List ℕ → List ℕ → Bool
bytes_eq [] [] = true
bytes_eq (a ∷ xs) (b ∷ ys) = a == b && bytes_eq xs ys
bytes_eq _ _ = false

-- `strncmp(text, p, strlen(p)) == 0`
unfoldable pub starts_with : List ℕ → List ℕ → Bool
starts_with [] text = true
starts_with (p ∷ ps) [] = false
starts_with (p ∷ ps) (c ∷ cs) = p == c && starts_with ps cs

-- `strstr(text, p)`: the text from the first occurrence on.
unfoldable pub strstr : List ℕ → List ℕ → Option (List ℕ)
unfolding starts_with
strstr [] p = if starts_with p [] then some [] else none
strstr (c ∷ cs) p = let rest = strstr cs p in if starts_with p (c ∷ cs) then some (c ∷ cs) else rest

abbrev pub is_space : ℕ → Bool
is_space c = c == 32 || (leb 9 c && leb c 13)

abbrev pub is_digit : ℕ → Bool
is_digit c = leb 48 c && leb c 57

unfoldable pub read_digits : ℕ → List ℕ → ℕ
read_digits acc [] = acc
read_digits acc (c ∷ cs) =
    let rest = read_digits (acc * 10 + (c - 48)) cs in if is_digit c then rest else acc

abbrev pub negate : ℕ → ℤ
negate zero = pos zero
negate (suc n) = negsuc n

read_sign : List ℕ → ℤ
unfolding read_digits
read_sign [] = pos 0
read_sign (c ∷ cs) =
    if c == b'-'
    then negate (read_digits 0 cs)
    else if c == b'+'
    then pos (read_digits 0 cs)
    else pos (read_digits 0 (c ∷ cs))

-- `atoi`; C leaves a value out of the range of `int` undefined, the model returns it as it is.
unfoldable pub atoi : List ℕ → ℤ
unfolding read_sign
atoi [] = pos 0
atoi (c ∷ cs) = let rest = atoi cs in if is_space c then rest else read_sign (c ∷ cs)

-- `snprintf(dst, size, "%s", src)` with `0 < size`: what `dst` holds afterwards.
unfoldable pub snprintf_s : ℕ → List ℕ → List ℕ
snprintf_s size [] = []
snprintf_s zero (c ∷ cs) = []
snprintf_s (suc size) (c ∷ cs) = if size == 0 then [] else c ∷ snprintf_s size cs

pub starts_with-append : (p rest : List ℕ) → starts_with p (p ++ rest) ≡ true
unfolding starts_with
starts_with-append [] rest = refl
starts_with-append (c ∷ p) rest = ground (arith, starts_with-append p rest)

pub bytes_eq_iff : (a b : List ℕ) → (bytes_eq a b ≡ true) ↔ (a ≡ b)
unfolding bytes_eq
bytes_eq_iff [] [] = ground arith
bytes_eq_iff [] (b ∷ ys) = ground arith
bytes_eq_iff (a ∷ xs) [] = ground arith
bytes_eq_iff (a ∷ xs) (b ∷ ys) = ground (arith, bytes_eq_iff xs ys)

pub snprintf_s_short : (size : ℕ) (src : List ℕ) → length src < size → snprintf_s size src ≡ src
unfolding snprintf_s
snprintf_s_short size [] h = refl
snprintf_s_short zero (c ∷ cs) h = elim h [ ]
snprintf_s_short (suc size) (c ∷ cs) h = ground (arith, snprintf_s_short size cs (omega arith))

pub length-snprintf_s : (size : ℕ) (src : List ℕ) → 0 < size → length (snprintf_s size src) < size
unfolding snprintf_s
length-snprintf_s size [] h = h
length-snprintf_s zero (c ∷ cs) h = elim h [ ]
length-snprintf_s (suc size) (c ∷ cs) h = ground (arith, length-snprintf_s size cs)

pub drop-length-append {ℓ} : {A : Type ℓ} (p rest : List A) → drop (length p) (p ++ rest) ≡ rest
drop-length-append [] rest = refl
drop-length-append (c ∷ p) rest = drop-length-append p rest

pub strstr-append : (p rest : List ℕ) → strstr (p ++ rest) p ≡ some (p ++ rest)
unfolding strstr
strstr-append [] [] = refl
strstr-append [] (c ∷ cs) = refl
strstr-append (c ∷ p) rest = ground (arith, starts_with-append (c ∷ p) rest)
