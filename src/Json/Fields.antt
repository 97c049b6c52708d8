-- ===== src/Json/Fields.antt =====
-- `json_get_string` of src/p2p/src/p2p_signaling.c on texts that hold what `json_escape` wrote.
use libp2pchannel.Prelude.{
  ℕ, ◌*◌, ◌/◌, ◌%◌, ◌<◌, ◌≡◌, refl, ◌≢◌, inl, inr, true, some, List, [], ◌∷◌, ◌++◌, arith,
  Option-cases, length, drop,
}
use libp2pchannel.Prelude.Text.{strstr, drop-length-append}
use libp2pchannel.Json.{
  quote, backslash, hex_digit, escape_char, json_escape, copy_string, unescape, string_pattern,
  json_get_string,
}
use libp2pchannel.Json.Escape.{
  json_escape-eq-escape_all, copy_string-escape_all, copy_string-plain, copy_string-escaped,
  copy_string-stop, length-copy_string, AllClean, AllSurvive-clean,
}

-- If the first occurrence of the field's pattern is followed by the text `src` as `json_escape` wrote
-- it and by a quote, `json_get_string` succeeds and delivers `src`. The text holds no control
-- character but tab, newline and carriage return, and both buffers are large enough.
pub json_get_string-json_escape :
    (json key src rest : List ℕ) (escaped_size size : ℕ)
    → AllClean src
    → 6 * length src < escaped_size
    → length src < size
    → strstr json (string_pattern key)
      ≡ some (string_pattern key ++ (json_escape src escaped_size ++ (quote ∷ rest)))
    → json_get_string json key size ≡ (true, src)
unfolding json_get_string
json_get_string-json_escape json key src rest escaped_size size clean room fits found = rw (
  found,
  json_get_string,
  drop-length-append,
  json_escape-eq-escape_all src escaped_size room,
  copy_string-escape_all unescape size 0 src rest (AllSurvive-clean src clean) (omega arith),
)

-- What `json_get_string` leaves in a buffer of `size` bytes is shorter than the buffer, whatever the
-- text.
pub length-json_get_string :
    (json key : List ℕ) (size : ℕ) → 0 < size → length (json_get_string json key size).1 < size
unfolding json_get_string
length-json_get_string json key size h = elim (Option-cases (strstr json (string_pattern key))) [
  | inl e ↦ rw (e, json_get_string) h
  | inr (p, e) ↦
      rw (e, json_get_string)
        (omega (arith, length-copy_string unescape size 0 (drop (length (string_pattern key)) p) h))
]

hex_digit_plain : (n : ℕ) → n < 16 → (hex_digit n ≢ quote) × (hex_digit n ≢ backslash)
unfolding hex_digit
hex_digit_plain n h = ground arith

unescape_u : unescape b'u' ≡ b'u'
unfolding unescape
unescape_u = refl

-- A control character other than tab, newline and carriage return does not survive: `json_escape`
-- writes a `\u` sequence, and the copying loop reads it as the letter u and four hexadecimal digits.
pub copy_string-control :
    (c size : ℕ) (rest : List ℕ)
    → c < 32
    → c ≢ 9
    → c ≢ 10
    → c ≢ 13
    → 6 < size
    → (copy_string unescape size 0 (escape_char c ++ (quote ∷ rest))).0
      ≡ b'u' ∷ b'0' ∷ b'0' ∷ hex_digit (c / 16) ∷ hex_digit (c % 16) ∷ []
unfolding escape_char
copy_string-control c size rest h n9 n10 n13 room = ground (
  arith,
  copy_string-escaped unescape size 0 b'u' (b'0' ∷ b'0' ∷ hi ∷ lo ∷ quote ∷ rest),
  copy_string-plain unescape size 1 b'0' (b'0' ∷ hi ∷ lo ∷ quote ∷ rest),
  copy_string-plain unescape size 2 b'0' (hi ∷ lo ∷ quote ∷ rest),
  copy_string-plain unescape size 3 hi (lo ∷ quote ∷ rest),
  copy_string-plain unescape size 4 lo (quote ∷ rest),
  copy_string-stop unescape size 5 rest,
  hex_digit_plain (c / 16),
  hex_digit_plain (c % 16),
  unescape_u,
)
  where
    hi : ℕ
    hi = hex_digit (c / 16)

    lo : ℕ
    lo = hex_digit (c % 16)
