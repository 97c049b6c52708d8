-- ===== src/Prelude/Int.antt =====
-- Signed C integers: `negsuc n` is -(n + 1). Casts between 64-bit unsigned and signed.
use Prim.Native.Nat.{ℕ, ◌-◌, ◌^◌, ◌%◌}
use mathlib.Core.Bool.{Bool, true, false}
use libp2pchannel.Prelude.Tests.{ltb, if◌then◌else◌}

pub data ℤ : Type 0 where
  pos : ℕ → ℤ
  negsuc : ℕ → ℤ

-- `(int64_t)u` of a `uint64_t`.
abbrev pub to_int64 : ℕ → ℤ
to_int64 u = if ltb u (2 ^ 63) then pos u else negsuc (2 ^ 64 - u - 1)

-- `(uint64_t)i` of an `int64_t`.
abbrev pub to_uint64 : ℤ → ℕ
to_uint64 (pos n) = n
to_uint64 (negsuc n) = 2 ^ 64 - n - 1

-- `(int)i` of a `long`: its low 32 bits.
abbrev pub to_int32 : ℤ → ℤ
to_int32 (pos n) =
    if ltb (n % 2 ^ 32) (2 ^ 31) then pos (n % 2 ^ 32) else negsuc (2 ^ 32 - n % 2 ^ 32 - 1)
to_int32 (negsuc n) =
    if ltb (n % 2 ^ 32) (2 ^ 31) then negsuc (n % 2 ^ 32) else pos (2 ^ 32 - n % 2 ^ 32 - 1)

abbrev pub is_negative : ℤ → Bool
is_negative (pos n) = false
is_negative (negsuc n) = true
