-- ===== src/Json/Escape.antt =====
-- `json_escape` of src/p2p/src/p2p_signaling.c and the copying loop of the readers, on which bytes they
-- agree.
use libp2pchannel.Prelude.{
  ℕ, ◌+◌, ◌*◌, ◌≤◌, ◌<◌, ◌≡◌, refl, ap, ap₂, ◌∙◌, ◌≢◌, ◌⊎◌, inl, inr, List, [], ◌∷◌, ◌++◌, arith,
  ℕ_discrete, length, length-append,
}
use libp2pchannel.Json.{
  quote, backslash, escape_char, escape_from, json_escape, copy_string, unescape,
  unescape_candidate,
}

pub length-escape_char-le : (c : ℕ) → (0 < length (escape_char c)) × (length (escape_char c) ≤ 6)
unfolding escape_char
length-escape_char-le c = ground arith

length-escape_from :
    (size j : ℕ) (src : List ℕ) → j < size → j + length (escape_from size j src) < size
unfolding escape_from
length-escape_from size j [] h = omega arith
length-escape_from size j (c ∷ src) h = ground (
  arith,
  length-escape_char-le c,
  length-append (escape_char c) (escape_from size (j + length (escape_char c)) src),
  length-escape_from size (j + length (escape_char c)) src,
)

-- `json_escape` writes less than `size` bytes before the NUL, whatever the text.
pub length-json_escape : (src : List ℕ) (size : ℕ) → 0 < size → length (json_escape src size) < size
unfolding json_escape
length-json_escape src size h = omega (arith, length-escape_from size 0 src h)

-- The whole text escaped.
unfoldable pub escape_all : List ℕ → List ℕ
escape_all [] = []
escape_all (c ∷ cs) = escape_char c ++ escape_all cs

escape_from-eq-escape_all :
    (size j : ℕ) (src : List ℕ)
    → j + 6 * length src < size
    → escape_from size j src ≡ escape_all src
unfolding escape_from escape_all
escape_from-eq-escape_all size j [] h = refl
escape_from-eq-escape_all size j (c ∷ src) h = ground (
  arith,
  length-escape_char-le c,
  escape_from-eq-escape_all size (j + length (escape_char c)) src,
)

-- With room for six bytes a character nothing is cut off.
pub json_escape-eq-escape_all :
    (src : List ℕ) (size : ℕ) → 6 * length src < size → json_escape src size ≡ escape_all src
unfolding json_escape
json_escape-eq-escape_all src size h = escape_from-eq-escape_all size 0 src (omega arith)

escape_from-fits :
    (size j : ℕ) (src : List ℕ)
    → j + length (escape_all src) + 6 ≤ size
    → escape_from size j src ≡ escape_all src
unfolding escape_from escape_all
escape_from-fits size j [] h = refl
escape_from-fits size j (c ∷ src) h = ground (
  arith,
  length-escape_char-le c,
  length-append (escape_char c) (escape_all src),
  escape_from-fits size (j + length (escape_char c)) src,
)

-- Nothing is cut off either if the escaped text leaves six bytes of the buffer.
pub json_escape-fits :
    (src : List ℕ) (size : ℕ)
    → length (escape_all src) + 6 ≤ size
    → json_escape src size ≡ escape_all src
unfolding json_escape
json_escape-fits src size h = escape_from-fits size 0 src (omega arith)

module _ (decode : ℕ → ℕ) where
  pub copy_string-stop :
      (size i : ℕ) (rest : List ℕ) → copy_string decode size i (quote ∷ rest) ≡ ([], quote ∷ rest)
  unfolding copy_string
  copy_string-stop size i [] = ground arith
  copy_string-stop size i (e ∷ rest) = ground arith

  pub copy_string-plain :
      (size i c : ℕ) (rest : List ℕ)
      → c ≢ quote
      → c ≢ backslash
      → i + 1 < size
      → let r = copy_string decode size (i + 1) rest in
        copy_string decode size i (c ∷ rest) ≡ (c ∷ r.0, r.1)
  unfolding copy_string
  copy_string-plain size i c [] nq nb h = ground arith
  copy_string-plain size i c (e ∷ rest) nq nb h = ground arith

  pub copy_string-escaped :
      (size i e : ℕ) (rest : List ℕ)
      → i + 1 < size
      → let r = copy_string decode size (i + 1) rest in
        copy_string decode size i (backslash ∷ e ∷ rest) ≡ (decode e ∷ r.0, r.1)
  unfolding copy_string
  copy_string-escaped size i e rest h = ground arith

  -- The escape of `c` is `c` itself, or a backslash and a byte that decodes to `c`.
  abbrev pub Survives : ℕ → Type 0
  Survives c =
      ((escape_char c ≡ c ∷ []) × (c ≢ quote) × (c ≢ backslash))
      ⊎ ((e : ℕ) × (escape_char c ≡ backslash ∷ e ∷ []) × (decode e ≡ c))

  abbrev pub AllSurvive : List ℕ → Type 0
  AllSurvive [] = Unit
  AllSurvive (c ∷ cs) = Survives c × AllSurvive cs

  -- The copying loop reads an escaped text back and stops at its closing quote.
  pub copy_string-escape_all :
      (size i : ℕ) (src rest : List ℕ)
      → AllSurvive src
      → i + length src < size
      → copy_string decode size i (escape_all src ++ (quote ∷ rest)) ≡ (src, quote ∷ rest)
  unfolding escape_all
  copy_string-escape_all size i [] rest s h = copy_string-stop size i rest
  copy_string-escape_all size i (c ∷ src) rest (inl (e, nq, nb), s) h = rw e (
      copy_string-plain size i c (escape_all src ++ (quote ∷ rest)) nq nb (omega arith)
      ∙ ap (λ (r : List ℕ × List ℕ). (c ∷ r.0, r.1))
          (copy_string-escape_all size (i + 1) src rest s (omega arith)))
  copy_string-escape_all size i (c ∷ src) rest (inr (e, p, q), s) h = rw p (
      copy_string-escaped size i e (escape_all src ++ (quote ∷ rest)) (omega arith)
      ∙ ap₂ (λ (x : ℕ) (r : List ℕ × List ℕ). (x ∷ r.0, r.1)) q
          (copy_string-escape_all size (i + 1) src rest s (omega arith)))

  pub length-copy_string :
      (size i : ℕ) (text : List ℕ) → i < size → i + length (copy_string decode size i text).0 < size
  unfolding copy_string
  length-copy_string size i [] h = omega arith
  length-copy_string size i (c ∷ []) h = ground arith
  length-copy_string size i (c ∷ e ∷ cs) h =
      ground (arith, length-copy_string size (i + 1) cs, length-copy_string size (i + 1) (e ∷ cs))

-- A byte that `json_escape` does not write as a `\u` sequence.
abbrev pub IsClean : ℕ → Type 0
IsClean c = (c ≡ 9) ⊎ (c ≡ 10) ⊎ (c ≡ 13) ⊎ (32 ≤ c)

abbrev pub AllClean : List ℕ → Type 0
AllClean [] = Unit
AllClean (c ∷ cs) = IsClean c × AllClean cs

-- A byte that the reader of candidates decodes as well.
abbrev pub IsCandidateByte : ℕ → Type 0
IsCandidateByte c = (c ≡ 10) ⊎ (32 ≤ c)

abbrev pub AllCandidateBytes : List ℕ → Type 0
AllCandidateBytes [] = Unit
AllCandidateBytes (c ∷ cs) = IsCandidateByte c × AllCandidateBytes cs

escaped-Survives :
    (decode : ℕ → ℕ) (c e : ℕ)
    → escape_char c ≡ backslash ∷ e ∷ []
    → decode e ≡ c
    → Survives decode c
escaped-Survives decode c e p q = inr (e, p, q)

candidate_byte-Survives :
    (decode : ℕ → ℕ) (c : ℕ)
    → decode quote ≡ quote
    → decode backslash ≡ backslash
    → decode b'n' ≡ 10
    → IsCandidateByte c
    → Survives decode c
unfolding escape_char
candidate_byte-Survives decode c dq db dn h = elim (ℕ_discrete c quote) [
  | yes p ↦ escaped-Survives decode c quote (ground arith) (ground arith)
  | no nq ↦ elim (ℕ_discrete c backslash) [
    | yes p ↦ escaped-Survives decode c backslash (ground arith) (ground arith)
    | no nb ↦ elim (ℕ_discrete c 10) [
      | yes p ↦ escaped-Survives decode c b'n' (ground arith) (ground arith)
      | no nn ↦ inl (ground arith, nq, nb)
    ]
  ]
]

clean-Survives : (c : ℕ) → IsClean c → Survives unescape c
unfolding escape_char unescape
clean-Survives c h = elim (ℕ_discrete c 9) [
  | yes p ↦ escaped-Survives unescape c b't' (ground arith) (ground arith)
  | no nt ↦ elim (ℕ_discrete c 13) [
    | yes p ↦ escaped-Survives unescape c b'r' (ground arith) (ground arith)
    | no nr ↦ candidate_byte-Survives unescape c refl refl refl (ground arith)
  ]
]

pub AllSurvive-clean : (cs : List ℕ) → AllClean cs → AllSurvive unescape cs
AllSurvive-clean [] h = tt
AllSurvive-clean (c ∷ cs) h = (clean-Survives c h.0, AllSurvive-clean cs h.1)

pub AllSurvive-candidate : (cs : List ℕ) → AllCandidateBytes cs → AllSurvive unescape_candidate cs
unfolding unescape_candidate
AllSurvive-candidate [] h = tt
AllSurvive-candidate (c ∷ cs) h =
    (candidate_byte-Survives unescape_candidate c refl refl refl h.0, AllSurvive-candidate cs h.1)
