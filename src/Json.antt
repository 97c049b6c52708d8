-- ===== src/Json.antt =====
-- The hand-written JSON helpers of src/p2p/src/p2p_signaling.c: escaping, and the readers of a
-- string field, an integer field and an array of strings. A text is the list of its bytes before the
-- NUL; a destination buffer is its size and what it holds up to the NUL when the call returns.
pub mod Escape
pub mod Fields
pub mod Candidates
use libp2pchannel.Prelude.{
  ℕ, zero, suc, ◌+◌, ◌-◌, ◌/◌, ◌%◌, Bool, true, false, ◌||◌, none, some, List, [], ◌∷◌, ◌++◌, ltb,
  leb, ◌==◌, if◌then◌else◌, length, drop, ℤ, pos,
}
use libp2pchannel.Prelude.Text.{strstr, atoi, snprintf_s}

abbrev pub quote : ℕ
quote = b'"'

abbrev pub backslash : ℕ
backslash = 92

-- A digit of `%04x`.
unfoldable pub hex_digit : ℕ → ℕ
hex_digit n = if ltb n 10 then b'0' + n else b'a' + (n - 10)

-- What `json_escape` writes for one byte.
unfoldable pub escape_char : ℕ → List ℕ
unfolding hex_digit
escape_char c =
    if c == quote
    then backslash ∷ quote ∷ []
    else if c == backslash
    then backslash ∷ backslash ∷ []
    else if c == 10
    then backslash ∷ b'n' ∷ []
    else if c == 13
    then backslash ∷ b'r' ∷ []
    else if c == 9
    then backslash ∷ b't' ∷ []
    else if ltb c 32
    then backslash ∷ b'u' ∷ b'0' ∷ b'0' ∷ hex_digit (c / 16) ∷ hex_digit (c % 16) ∷ []
    else c ∷ []

-- The loop of `json_escape` from position `j` of a buffer of `size` bytes.
unfoldable pub escape_from : ℕ → ℕ → List ℕ → List ℕ
escape_from size j [] = []
escape_from size j (c ∷ cs) =
    let rest = escape_char c ++ escape_from size (j + length (escape_char c)) cs in
    if ltb (j + 6) size then rest else []

-- `json_escape`
unfoldable pub json_escape : List ℕ → ℕ → List ℕ
json_escape src size = escape_from size 0 src

-- The byte that follows a backslash, in `json_get_string` ...
unfoldable pub unescape : ℕ → ℕ
unescape c = if c == b'n' then 10 else if c == b'r' then 13 else if c == b't' then 9 else c

-- ... and in `parse_candidates_array`.
pub unescape_candidate : ℕ → ℕ
unescape_candidate c = if c == b'n' then 10 else c

-- The loop that copies a string's bytes up to its closing quote: what it writes from position `i`
-- of a buffer of `size` bytes, and where it stops in the text.
unfoldable pub copy_string : (ℕ → ℕ) → ℕ → ℕ → List ℕ → List ℕ × List ℕ
copy_string decode size i [] = ([], [])
copy_string decode size i (c ∷ []) =
    if c == quote || leb size (i + 1) then ([], c ∷ []) else (c ∷ [], [])
copy_string decode size i (c ∷ e ∷ cs) =
    let escaped = copy_string decode size (i + 1) cs in
    let plain = copy_string decode size (i + 1) (e ∷ cs) in
    if c == quote || leb size (i + 1)
    then ([], c ∷ e ∷ cs)
    else if c == backslash
    then (decode e ∷ escaped.0, escaped.1)
    else (c ∷ plain.0, plain.1)

-- `snprintf(pattern, sizeof(pattern), "\"%s\":\"", key)` and the same without the last quote.
abbrev pub string_pattern : List ℕ → List ℕ
string_pattern key = snprintf_s 128 (quote ∷ (key ++ (quote ∷ b':' ∷ quote ∷ [])))

abbrev pub int_pattern : List ℕ → List ℕ
int_pattern key = snprintf_s 128 (quote ∷ (key ++ (quote ∷ b':' ∷ [])))

abbrev pub array_pattern : List ℕ → List ℕ
array_pattern key = snprintf_s 128 (quote ∷ (key ++ (quote ∷ b':' ∷ b'[' ∷ [])))

-- `json_get_string`: the result 0 or -1 as a truth value, and what the buffer holds.
unfoldable pub json_get_string : List ℕ → List ℕ → ℕ → Bool × List ℕ
json_get_string json key size = elim (strstr json (string_pattern key)) [
  | none ↦ (false, [])
  | some p ↦ (true, (copy_string unescape size 0 (drop (length (string_pattern key)) p)).0)
]

-- `json_get_int`
unfoldable pub json_get_int : List ℕ → List ℕ → ℤ
json_get_int json key = elim (strstr json (int_pattern key)) [
  | none ↦ pos 0
  | some p ↦ atoi (drop (length (int_pattern key)) p)
]

-- `P2P_SIG_MAX_CANDIDATES` and `P2P_SIG_MAX_CAND_SIZE`
abbrev pub max_candidates : ℕ
max_candidates = 16

abbrev pub max_cand_size : ℕ
max_cand_size = 256

-- `while (*p == ' ' || *p == ',') p++;`
pub skip_separators : List ℕ → List ℕ
skip_separators [] = []
skip_separators (c ∷ cs) = if c == b' ' || c == b',' then skip_separators cs else c ∷ cs

-- `if (*p == '"') p++;`
pub skip_quote : List ℕ → List ℕ
skip_quote [] = []
skip_quote (c ∷ cs) = if c == quote then cs else c ∷ cs

-- The outer loop of `parse_candidates_array`. Each round that does not stop stores a candidate, so
-- the rounds left are `max_count - count`.
pub parse_candidates : ℕ → List ℕ → List (List ℕ)
unfolding skip_separators skip_quote
parse_candidates zero p = []
parse_candidates (suc rounds) [] = []
parse_candidates (suc rounds) (c ∷ p) = if c == b']' then [] else elim (skip_separators (c ∷ p)) [
  | [] ↦ []
  | d ∷ q ↦
      let (cand, rest) = copy_string unescape_candidate max_cand_size 0 q in
      let others = parse_candidates rounds (skip_quote rest) in
      if d == quote then cand ∷ others else []
]

-- `parse_candidates_array`: the candidates stored; their number is the result.
pub parse_candidates_array : List ℕ → List ℕ → ℕ → List (List ℕ)
unfolding parse_candidates
parse_candidates_array json key max_count = elim (strstr json (array_pattern key)) [
  | none ↦ []
  | some p ↦ parse_candidates max_count (drop (length (array_pattern key)) p)
]
