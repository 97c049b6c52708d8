-- ===== src/Transport/Http/Heads.antt =====
-- Reading a whole head, over the answers of src/p2p/src/p2p_tls.c.
use libp2pchannel.Prelude.{
  ℕ, zero, suc, ◌+◌, ◌-◌, ◌≤◌, ◌≡◌, refl, ap, ◌∙◌, ◌≢◌, false, some, List, [], ◌∷◌, ◌++◌,
  append-nil, arith, ne→==, length, length-append,
}
use libp2pchannel.Prelude.Text.{starts_with}
use libp2pchannel.Transport.{Answer, c_str}
use libp2pchannel.Transport.Laws.{Carries, IsLine, Carries-Next}
use libp2pchannel.Transport.Http.{crlf, head_ends, read_headers, reversed, header_text}

-- The lines of a head, none of them empty, and the empty line behind them.
abbrev pub head_of : List (List ℕ) → List ℕ
head_of [] = crlf
head_of (l ∷ ls) = l ++ (13 ∷ 10 ∷ head_of ls)

pub data AllLines : List (List ℕ) → Type 0 where
  nil : AllLines []
  cons :
      {c : ℕ} {cs : List ℕ} {ls : List (List ℕ)}
      → IsLine (c ∷ cs)
      → AllLines ls
      → AllLines ((c ∷ cs) ∷ ls)

-- One byte that does not end the head.
read_headers-byte :
    {rest : List Answer} (room : ℕ) (seen : List ℕ) (c : ℕ) (text : List ℕ) (ans : List Answer)
    → head_ends (c ∷ seen) ≡ false
    → Carries rest (c ∷ text) ans
    → (end : List Answer) × (read_headers (suc room) seen ans ≡ read_headers room (c ∷ seen) end)
      × Carries rest text end
unfolding read_headers
read_headers-byte room seen c text ans h carried =
    let n = Carries-Next carried in (n.end, rw (n.read, h) refl, n.carried)

other_byte : (c : ℕ) (seen : List ℕ) → c ≢ 10 → head_ends (c ∷ seen) ≡ false
unfolding starts_with
other_byte c seen h = ground arith

-- The bytes of a line.
read_headers-IsLine :
    {rest : List Answer} (room : ℕ) (seen line text : List ℕ) (ans : List Answer)
    → IsLine line
    → length line ≤ room
    → Carries rest (line ++ text) ans
    → (end : List Answer) × (read_headers room seen ans
        ≡ read_headers (room - length line) (reversed line seen) end)
      × Carries rest text end
unfolding reversed
read_headers-IsLine room seen [] text ans l h c =
    (ans, ap (λ r. read_headers r seen ans) (omega arith), c)
read_headers-IsLine zero seen (x ∷ xs) text ans l h c = elim h [ ]
read_headers-IsLine (suc room) seen (x ∷ xs) text ans (IsLine.cons nz nn nr l) h c =
    let (mid, r, t) = read_headers-byte room seen x (xs ++ text) ans (other_byte x seen nn) c in
    let (end, r', t') = read_headers-IsLine room (x ∷ seen) xs text mid l (omega (arith, h)) t in
    (end, r ∙ r' ∙ ap (λ k. read_headers k (reversed xs (x ∷ seen)) end) (omega arith), t')

-- The newline behind a line that is not empty does not end the head.
line_end :
    (y : ℕ) (cs seen : List ℕ)
    → y ≢ 10
    → IsLine cs
    → head_ends (10 ∷ 13 ∷ reversed cs (y ∷ seen)) ≡ false
unfolding reversed starts_with
line_end y [] seen h l = ground arith
line_end y (c ∷ cs) seen h (IsLine.cons nz nn nr l) = line_end c cs (y ∷ seen) nn l

-- A line and the CRLF behind it.
read_headers-line :
    {rest : List Answer} (room : ℕ) (seen : List ℕ) (x : ℕ) (xs text : List ℕ) (ans : List Answer)
    → IsLine (x ∷ xs)
    → length xs + 3 ≤ room
    → Carries rest ((x ∷ xs) ++ (13 ∷ 10 ∷ text)) ans
    → (end : List Answer) × (read_headers room seen ans
        ≡ read_headers (room - (length xs + 3)) (10 ∷ 13 ∷ reversed (x ∷ xs) seen) end)
      × Carries rest text end
unfolding reversed
read_headers-line room seen x xs text ans (IsLine.cons nz nn nr l) h c =
    let (a, r, t) =
      read_headers-IsLine room seen (x ∷ xs) (13 ∷ 10 ∷ text) ans (IsLine.cons nz nn nr l)
        (omega (arith, h)) c in
    let back = reversed xs (x ∷ seen) in
    let k = room - (length xs + 3) in
    let (b, r', t') =
      read_headers-byte (suc k) back 13 (10 ∷ text) a (other_byte 13 back (omega arith)) t in
    let (d, r'', t'') = read_headers-byte k (13 ∷ back) 10 text b (line_end x xs seen nn l) t' in
    (d, r ∙ ap (λ m. read_headers m back a) (omega (arith, h)) ∙ r' ∙ r'', t'')

reversed-append : (p q onto : List ℕ) → reversed (p ++ q) onto ≡ reversed q (reversed p onto)
unfolding reversed
reversed-append [] q onto = refl
reversed-append (c ∷ p) q onto = reversed-append p q (c ∷ onto)

reversed-reversed :
    (p onto out : List ℕ) → reversed (reversed p onto) out ≡ reversed onto (p ++ out)
unfolding reversed
reversed-reversed [] onto out = refl
reversed-reversed (c ∷ p) onto out = reversed-reversed p (c ∷ onto) out

-- The empty line behind the lines.
read_headers-crlf :
    {rest : List Answer} (room : ℕ) (seen : List ℕ) (ans : List Answer)
    → 2 ≤ room
    → Carries rest crlf ans
    → (end : List Answer) × (read_headers room (10 ∷ 13 ∷ seen) ans
        ≡ (some (10 ∷ 13 ∷ 10 ∷ 13 ∷ seen), end))
      × Carries rest [] end
unfolding read_headers starts_with
read_headers-crlf room seen ans h c =
    let (a, r, t) =
      read_headers-byte (suc (room - 2)) (10 ∷ 13 ∷ seen) 13 (10 ∷ []) ans
        (other_byte 13 (10 ∷ 13 ∷ seen) (omega arith)) c in
    let n = Carries-Next t in
    let two : room ≡ suc (suc (room - 2)) = omega (arith, h) in
    let sizes = ap (λ m. read_headers m (10 ∷ 13 ∷ seen) ans) two in
    (n.end, sizes ∙ r ∙ rw n.read refl, n.carried)

read_headers-lines :
    {rest : List Answer} {ls : List (List ℕ)} (room : ℕ) (seen : List ℕ) (ans : List Answer)
    → AllLines ls
    → length (head_of ls) ≤ room
    → Carries rest (head_of ls) ans
    → (end : List Answer) × (read_headers room (10 ∷ 13 ∷ seen) ans
        ≡ (some (reversed (head_of ls) (10 ∷ 13 ∷ seen)), end))
      × Carries rest [] end
unfolding reversed
read_headers-lines room seen ans nil h c = read_headers-crlf room seen ans h c
read_headers-lines room seen ans (cons {c = x} {cs = xs} {ls = ls} l a) h c =
    let size = length-append xs (13 ∷ 10 ∷ head_of ls) in
    let (b, r, t) =
      read_headers-line room (10 ∷ 13 ∷ seen) x xs (head_of ls) ans l (omega (arith, size, h)) c in
    let (d, r', t') =
      read_headers-lines (room - (length xs + 3)) (reversed (x ∷ xs) (10 ∷ 13 ∷ seen)) b a
        (omega (arith, size, h)) t in
    (d, r ∙ r' ∙ rw reversed-append refl, t')

-- A head with one line at least is read, and nothing behind it.
pub read_headers-head_of :
    {rest : List Answer} {x : ℕ} {xs : List ℕ} {ls : List (List ℕ)} (room : ℕ) (ans : List Answer)
    → AllLines ((x ∷ xs) ∷ ls)
    → length (head_of ((x ∷ xs) ∷ ls)) ≤ room
    → Carries rest (head_of ((x ∷ xs) ∷ ls)) ans
    → (end : List Answer) × (read_headers room [] ans
        ≡ (some (reversed (head_of ((x ∷ xs) ∷ ls)) []), end))
      × Carries rest [] end
unfolding reversed
read_headers-head_of {x = x} {xs} {ls} room ans (cons l a) h c =
    let size = length-append xs (13 ∷ 10 ∷ head_of ls) in
    let (b, r, t) = read_headers-line room [] x xs (head_of ls) ans l (omega (arith, size, h)) c in
    let (d, r', t') =
      read_headers-lines (room - (length xs + 3)) (reversed (x ∷ xs) []) b a
        (omega (arith, size, h)) t in
    (d, r ∙ r' ∙ rw reversed-append refl, t')

c_str-append : (line text : List ℕ) → IsLine line → c_str (line ++ text) ≡ line ++ c_str text
unfolding c_str
c_str-append [] text IsLine.nil = refl
c_str-append (c ∷ cs) text (IsLine.cons nz nn nr l) =
    rw (ne→== c 0 nz) (ap (λ t. c ∷ t) (c_str-append cs text l))

c_str-head_of : {ls : List (List ℕ)} → AllLines ls → c_str (head_of ls) ≡ head_of ls
unfolding c_str
c_str-head_of nil = refl
c_str-head_of (cons {c = c} {cs = cs} {ls = ls} l a) =
    c_str-append (c ∷ cs) (13 ∷ 10 ∷ head_of ls) l
    ∙ ap (λ t. (c ∷ cs) ++ (13 ∷ 10 ∷ t)) (c_str-head_of a)

-- The text of the head is what was sent.
pub header_text-head_of :
    {ls : List (List ℕ)} → AllLines ls → header_text (reversed (head_of ls) []) ≡ head_of ls
unfolding reversed
header_text-head_of {ls} a =
    ap c_str (reversed-reversed (head_of ls) [] [] ∙ append-nil (head_of ls)) ∙ c_str-head_of a
