-- ===== src/Jitter/Serial.antt =====
-- Sequence numbers of 32 bits compared across the wrap, as src/p2p/src/p2p_adapter.c does.
use libp2pchannel.Prelude.{ℕ, ◌+◌, ◌-◌, ◌%◌, ◌^◌, ◌<◌, ◌≡◌, Bool, arith, ltb, leb}

-- `(uint32_t)(b - a) < 0x80000000u`: `b` is `a`, or follows it by less than half the range.
abbrev pub serial_le : ℕ → ℕ → Bool
serial_le a b = ltb ((b + 2 ^ 32 - a) % 2 ^ 32) (2 ^ 31)

-- How far `s` lies behind `base`.
abbrev pub offset : ℕ → ℕ → ℕ
offset base s = (s + 2 ^ 32 - base) % 2 ^ 32

-- Among numbers that follow `base` by less than half the range, the comparison is that of the offsets.
pub serial_le-offset :
    (base a b : ℕ)
    → base < 2 ^ 32
    → a < 2 ^ 32
    → b < 2 ^ 32
    → offset base a < 2 ^ 31
    → offset base b < 2 ^ 31
    → serial_le a b ≡ leb (offset base a) (offset base b)
serial_le-offset base a b hb ha hs oa ob = ground arith
