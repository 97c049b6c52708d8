-- ===== src/Transport/Http/Bodies.antt =====
-- Reading a whole body, over the answers of src/p2p/src/p2p_tls.c.
use libp2pchannel.Prelude.{
  ℕ, zero, suc, ◌-◌, ◌≤◌, ◌≡◌, refl, some, List, [], ◌∷◌, ◌++◌, arith, length, length-append,
}
use libp2pchannel.Transport.{Answer, want, got, p2p_tls_read, read_rounds, tls_read_full}
use libp2pchannel.Transport.Laws.{Carries}

-- The answers bring the bytes in pieces of any size but none empty, with any retries before
-- each of them.
pub data Delivers (rest : List Answer) : List ℕ → List Answer → Type 0 where
  done : Delivers rest [] rest
  retry :
      {c : ℕ} {cs : List ℕ} {ans : List Answer}
      → Delivers rest (c ∷ cs) ans
      → Delivers rest (c ∷ cs) (want ∷ ans)
  piece :
      {c : ℕ} {cs more : List ℕ} {ans : List Answer}
      → Delivers rest more ans
      → Delivers rest (c ∷ (cs ++ more)) (got (c ∷ cs) ∷ ans)

-- A read of as many bytes as are there reads them and nothing more.
read_rounds-Delivers :
    {rest : List Answer} {bytes : List ℕ} {ans : List Answer} (fuel : ℕ)
    → length bytes ≤ fuel
    → Delivers rest bytes ans
    → read_rounds fuel (length bytes) ans ≡ (some bytes, rest)
unfolding read_rounds p2p_tls_read
read_rounds-Delivers fuel h done = refl
read_rounds-Delivers zero h (retry d) = elim h [ ]
read_rounds-Delivers (suc fuel) h (retry d) = read_rounds-Delivers (suc fuel) h d
read_rounds-Delivers zero h (piece d) = elim h [ ]
read_rounds-Delivers (suc fuel) h (piece {c} {cs} {more} {ans} d) =
    let l : suc (length (cs ++ more)) - suc (length cs) ≡ length more =
      omega (arith, length-append cs more) in
    rw (l, read_rounds-Delivers fuel (omega (arith, length-append cs more, h)) d) refl

pub tls_read_full-Delivers :
    {rest : List Answer} {bytes : List ℕ} {ans : List Answer}
    → Delivers rest bytes ans
    → tls_read_full (length bytes) ans ≡ (some bytes, rest)
unfolding tls_read_full
tls_read_full-Delivers {bytes = bytes} d = read_rounds-Delivers (length bytes) (omega arith) d

-- Retries before a piece belong to it.
pub Delivers-Carries :
    {rest mid : List Answer} {c : ℕ} {cs : List ℕ} (ans : List Answer)
    → Carries mid [] ans
    → Delivers rest (c ∷ cs) mid
    → Delivers rest (c ∷ cs) ans
Delivers-Carries ans Carries.done d = d
Delivers-Carries ans (Carries.retry k) d = retry (Delivers-Carries _ k d)
