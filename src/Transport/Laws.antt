-- ===== src/Transport/Laws.antt =====
-- Lines over the answers of src/p2p/src/p2p_tls.c.
use libp2pchannel.Prelude.{
  ℕ, zero, suc, ◌<◌, ◌≡◌, refl, ◌≢◌, some, List, [], ◌∷◌, ◌++◌, arith, ne→==, length,
}
use libp2pchannel.Transport.{Answer, want, got, p2p_tls_read, read_byte, tls_read_line}

-- The answers carry the text one byte at a time, with any number of retries before each byte, and `rest`
-- comes behind.
pub data Carries (rest : List Answer) : List ℕ → List Answer → Type 0 where
  done : Carries rest [] rest
  retry :
      {text : List ℕ} {ans : List Answer} → Carries rest text ans → Carries rest text (want ∷ ans)
  byte :
      {c : ℕ} {cs : List ℕ} {ans : List Answer}
      → Carries rest cs ans
      → Carries rest (c ∷ cs) (got (c ∷ []) ∷ ans)

-- No newline, carriage return or NUL in it.
pub data IsLine : List ℕ → Type 0 where
  nil : IsLine []
  cons : {c : ℕ} {cs : List ℕ} → c ≢ 0 → c ≢ 10 → c ≢ 13 → IsLine cs → IsLine (c ∷ cs)

-- The answers from the first byte on.
pub record Next (rest : List Answer) (c : ℕ) (cs : List ℕ) (ans : List Answer) : Type 0 where
  pub end : List Answer
  pub read : read_byte ans ≡ (some c, end)
  pub carried : Carries rest cs end
  pub shorter : length end < length ans

pub Carries-Next :
    {rest : List Answer} {c : ℕ} {cs : List ℕ} {ans : List Answer}
    → Carries rest (c ∷ cs) ans
    → Next rest c cs ans
unfolding p2p_tls_read
Carries-Next (retry h) =
    let n = Carries-Next h in
    record { end = n.end; read = n.read; carried = n.carried; shorter = omega (arith, n.shorter) }
Carries-Next (byte {ans = ans} h) = record {
  end = ans;
  read = refl;
  carried = h;
  shorter = omega arith;
}

-- The text of a line and its newline, split from what follows.
pub tls_read_line-IsLine :
    {rest : List Answer} (room : ℕ) (line text : List ℕ) (ans : List Answer)
    → IsLine line
    → length line < room
    → Carries rest (line ++ (10 ∷ text)) ans
    → (end : List Answer) × (tls_read_line room ans ≡ (some (line ++ (10 ∷ [])), end))
      × Carries rest text end
      × (length end < length ans)
unfolding tls_read_line
tls_read_line-IsLine zero line text ans l h c = elim h [ ]
tls_read_line-IsLine (suc room) [] text ans l h c =
    let n = Carries-Next c in (n.end, rw n.read refl, n.carried, n.shorter)
tls_read_line-IsLine (suc room) (x ∷ xs) text ans (cons nz nn nr l) h c =
    let n = Carries-Next c in
    let (end, e, t, s) = tls_read_line-IsLine room xs text n.end l (omega arith) n.carried in
    (end, rw (n.read, ne→== x 10 nn, e) refl, t, omega (arith, n.shorter, s))
