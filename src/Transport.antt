-- ===== src/Transport.antt =====
-- The TLS transport of src/p2p/src/p2p_tls.c: reads and writes with their retries, whole blocks and
-- lines. What each call of `mbedtls_ssl_read` and `mbedtls_ssl_write` returns is an argument, a list in
-- the order of the calls; a connection pointer is never NULL here, as in the calls of the signaling client.
pub mod Laws
pub mod Context
pub mod Events
pub mod Http
use libp2pchannel.Prelude.{
  ℕ, zero, suc, ◌+◌, ◌-◌, ◌*◌, ◌/◌, ◌%◌, ◌^◌, ◌≤◌, ◌<◌, min, ◌≡◌, refl, sym, ap, ap₂, subst, ◌∙◌,
  ◌≡⟨◌⟩◌, ◌∎, ◌≢◌, ◌↔◌, ◌⊎◌, inl, inr, Bool, true, false, not, ◌&&◌, ◌||◌, Option, none, some, List,
  [], ◌∷◌, ◌++◌, map, append_assoc, append-nil, arith, dec_lt, dec_le, ℕ_discrete, ltb, leb, ◌==◌,
  if◌then◌else◌, ltb→lt, lt→ltb, ge→ltb, eq→==, ne→==, ==_iff, Bool-cases, Option-cases, length,
  get_elem?, get_or, set, take, drop, replicate, memcpy, length-append, length-set,
  length-replicate, length-take, length-drop, take-length, take-take-append, get_or-set_self,
  get_or-set_ne, ℤ, pos, negsuc, to_int64, to_uint64, is_negative, List-cases,
}

-- What one call of `mbedtls_ssl_read` answers: `WANT_READ` or `WANT_WRITE`, the bytes it has read (none of
-- them when the peer has closed), or another error.
pub data Answer : Type 0 where
  want : Answer
  got : List ℕ → Answer
  failed : Answer

-- `p2p_tls_read`, which tries again as long as it is told to; `none` is -1. After the last answer there
-- is no connection any more.
unfoldable pub p2p_tls_read : List Answer → Option (List ℕ) × List Answer
p2p_tls_read [] = (none, [])
p2p_tls_read (want ∷ ans) = p2p_tls_read ans
p2p_tls_read (got bytes ∷ ans) = (some bytes, ans)
p2p_tls_read (failed ∷ ans) = (none, ans)

-- The read of one byte, as the loops use it: -1 and 0 end them alike.
abbrev pub first_byte : Option (List ℕ) → Option ℕ
first_byte none = none
first_byte (some []) = none
first_byte (some (c ∷ cs)) = some c

abbrev pub read_byte : List Answer → Option ℕ × List Answer
read_byte ans = let (bytes, rest) = p2p_tls_read ans in (first_byte bytes, rest)

abbrev pub before_rest : List ℕ → Option (List ℕ) × List Answer → Option (List ℕ) × List Answer
before_rest bytes (none, ans) = (none, ans)
before_rest bytes (some more, ans) = (some (bytes ++ more), ans)

-- One round of `tls_read_line`: the end of the input, the newline, or a byte before the rest of the line.
abbrev pub line_from :
    (List Answer → Option (List ℕ) × List Answer)
    → Option ℕ × List Answer
    → Option (List ℕ) × List Answer
line_from rest (none, ans) = (none, ans)
line_from rest (some c, ans) =
    if c == b'\n' then (some (c ∷ []), ans) else before_rest (c ∷ []) (rest ans)

-- `tls_read_line` with room for `buf_sz - 1` bytes; the newline belongs to the line, and a line that is too
-- long ends where the room does.
unfoldable pub tls_read_line : ℕ → List Answer → Option (List ℕ) × List Answer
unfolding p2p_tls_read
tls_read_line zero ans = (some [], ans)
tls_read_line (suc room) ans = line_from (tls_read_line room) (read_byte ans)

-- One round of `tls_read_full`.
abbrev pub block_from :
    (ℕ → List Answer → Option (List ℕ) × List Answer)
    → ℕ
    → Option (List ℕ) × List Answer
    → Option (List ℕ) × List Answer
block_from rest need (none, ans) = (none, ans)
block_from rest need (some [], ans) = (none, ans)
block_from rest need (some (c ∷ cs), ans) = before_rest (c ∷ cs) (rest (need - suc (length cs)) ans)

-- `tls_read_full`. Every read brings a byte or ends the loop, so `need` rounds are enough.
unfoldable pub read_rounds : ℕ → ℕ → List Answer → Option (List ℕ) × List Answer
unfolding p2p_tls_read
read_rounds fuel zero ans = (some [], ans)
read_rounds zero (suc need) ans = (none, ans)
read_rounds (suc fuel) (suc need) ans = block_from (read_rounds fuel) (suc need) (p2p_tls_read ans)

unfoldable pub tls_read_full : ℕ → List Answer → Option (List ℕ) × List Answer
unfolding read_rounds
tls_read_full need ans = read_rounds need need ans

-- What one call of `mbedtls_ssl_write` answers: `WANT_READ` or `WANT_WRITE`, the number of bytes
-- written, 0 among them, or another error.
pub data Written : Type 0 where
  want_write : Written
  wrote : ℕ → Written
  write_failed : Written

-- `p2p_tls_write`: the number of bytes that one write took, `none` for -1. A write that takes no byte is an
-- error, since 0 is not one of the two codes.
unfoldable pub p2p_tls_write : List Written → Option ℕ × List Written
p2p_tls_write [] = (none, [])
p2p_tls_write (want_write ∷ ws) = p2p_tls_write ws
p2p_tls_write (wrote zero ∷ ws) = (none, ws)
p2p_tls_write (wrote (suc n) ∷ ws) = (some (suc n), ws)
p2p_tls_write (write_failed ∷ ws) = (none, ws)

-- The text of a buffer, which ends at the first NUL.
unfoldable pub c_str : List ℕ → List ℕ
c_str [] = []
c_str (c ∷ cs) = if c == 0 then [] else c ∷ c_str cs
