-- ===== src/Json/Candidates.antt =====
-- `parse_candidates_array` of src/p2p/src/p2p_signaling.c on an array of escaped strings, the form that
-- the signaling messages give their `candidates` field.
use libp2pchannel.Prelude.{
  ℕ, zero, suc, ◌≤◌, ◌<◌, ◌≡◌, refl, ap, ◌∙◌, inl, inr, some, List, [], ◌∷◌, ◌++◌, arith,
  Option-cases, length, drop,
}
use libp2pchannel.Prelude.{List-cases}
use libp2pchannel.Prelude.Text.{strstr, drop-length-append}
use libp2pchannel.Json.{
  quote, copy_string, unescape_candidate, max_cand_size, skip_separators, skip_quote,
  parse_candidates, parse_candidates_array, array_pattern,
}
use libp2pchannel.Json.Escape.{
  escape_all, copy_string-escape_all, length-copy_string, AllCandidateBytes, AllSurvive-candidate,
}

-- The candidates after the first, each behind a comma, then the closing bracket and what follows.
unfoldable pub print_more : List (List ℕ) → List ℕ → List ℕ
print_more [] rest = b']' ∷ rest
print_more (c ∷ cs) rest = b',' ∷ quote ∷ (escape_all c ++ (quote ∷ print_more cs rest))

-- `"c1","c2",...]` with each candidate escaped.
unfoldable pub print_items : List (List ℕ) → List ℕ → List ℕ
print_items [] rest = b']' ∷ rest
print_items (c ∷ cs) rest = quote ∷ (escape_all c ++ (quote ∷ print_more cs rest))

-- Candidates that fit their slots, that the reader decodes, and whose escaped form leaves six bytes of the
-- 512 that `build_signal_json` has for it.
abbrev pub AllFit : List (List ℕ) → Type 0
AllFit [] = Unit
AllFit (c ∷ cs) =
    (length c < max_cand_size) × AllCandidateBytes c × (length (escape_all c) ≤ 506) × AllFit cs

copy_string-candidate :
    (c t : List ℕ)
    → length c < max_cand_size
    → AllCandidateBytes c
    → copy_string unescape_candidate max_cand_size 0 (escape_all c ++ (quote ∷ t)) ≡ (c, quote ∷ t)
copy_string-candidate c t fits clean =
    copy_string-escape_all unescape_candidate max_cand_size 0 c t (AllSurvive-candidate c clean)
      (omega arith)

parse_one :
    (rounds : ℕ) (c t : List ℕ)
    → length c < max_cand_size
    → AllCandidateBytes c
    → parse_candidates (suc rounds) (quote ∷ (escape_all c ++ (quote ∷ t)))
      ≡ c ∷ parse_candidates rounds t
unfolding parse_candidates
parse_one rounds c t fits clean = rw (copy_string-candidate c t fits clean)

parse_next :
    (rounds : ℕ) (c t : List ℕ)
    → length c < max_cand_size
    → AllCandidateBytes c
    → parse_candidates (suc rounds) (b',' ∷ quote ∷ (escape_all c ++ (quote ∷ t)))
      ≡ c ∷ parse_candidates rounds t
unfolding parse_candidates
parse_next rounds c t fits clean = rw (copy_string-candidate c t fits clean)

parse-print_more :
    (rounds : ℕ) (cs : List (List ℕ)) (rest : List ℕ)
    → length cs ≤ rounds
    → AllFit cs
    → parse_candidates rounds (print_more cs rest) ≡ cs
unfolding print_more
parse-print_more zero [] rest h fit = unfold parse_candidates in refl
parse-print_more zero (c ∷ cs) rest h fit = elim h [ ]
parse-print_more (suc rounds) [] rest h fit = unfold parse_candidates in refl
parse-print_more (suc rounds) (c ∷ cs) rest h fit =
    parse_next rounds c (print_more cs rest) fit.0 fit.1
    ∙ ap (λ t. c ∷ t) (parse-print_more rounds cs rest (omega arith) fit.3)

parse-print_items :
    (rounds : ℕ) (cs : List (List ℕ)) (rest : List ℕ)
    → length cs ≤ rounds
    → AllFit cs
    → parse_candidates rounds (print_items cs rest) ≡ cs
unfolding print_items
parse-print_items zero [] rest h fit = unfold parse_candidates in refl
parse-print_items zero (c ∷ cs) rest h fit = elim h [ ]
parse-print_items (suc rounds) [] rest h fit = unfold parse_candidates in refl
parse-print_items (suc rounds) (c ∷ cs) rest h fit =
    parse_one rounds c (print_more cs rest) fit.0 fit.1
    ∙ ap (λ t. c ∷ t) (parse-print_more rounds cs rest (omega arith) fit.3)

-- If the first occurrence of the array's pattern is followed by the items with each candidate escaped
-- whole, `parse_candidates_array` returns exactly these candidates, in order. There are at most
-- `max_count` of them, each is shorter than its slot and holds no control character but newline.
pub parse_candidates_array-print_items :
    (json key rest : List ℕ) (cs : List (List ℕ)) (max_count : ℕ)
    → length cs ≤ max_count
    → AllFit cs
    → strstr json (array_pattern key) ≡ some (array_pattern key ++ print_items cs rest)
    → parse_candidates_array json key max_count ≡ cs
unfolding parse_candidates_array
parse_candidates_array-print_items json key rest cs max_count h fit found =
    rw (found, parse_candidates_array, drop-length-append)
      (parse-print_items max_count cs rest h fit)

length-parse_candidates : (rounds : ℕ) (p : List ℕ) → length (parse_candidates rounds p) ≤ rounds
unfolding parse_candidates
length-parse_candidates zero p = omega arith
length-parse_candidates (suc rounds) [] = omega arith
length-parse_candidates (suc rounds) (c ∷ p) = elim (List-cases (skip_separators (c ∷ p))) [
  | inl e ↦ ground arith
  | inr (d, q, e) ↦ ground (
    arith,
    length-parse_candidates rounds
        (skip_quote (copy_string unescape_candidate max_cand_size 0 q).1),
  )
]

-- At most `max_count` candidates are stored, whatever the text.
pub length-parse_candidates_array :
    (json key : List ℕ) (max_count : ℕ)
    → length (parse_candidates_array json key max_count) ≤ max_count
unfolding parse_candidates_array
length-parse_candidates_array json key max_count =
    elim (Option-cases (strstr json (array_pattern key))) [
      | inl e ↦ rw (e, parse_candidates_array) (omega arith)
      | inr (p, e) ↦
          rw (e, parse_candidates_array)
            (length-parse_candidates max_count (drop (length (array_pattern key)) p))
    ]

abbrev pub AllShort : ℕ → List (List ℕ) → Type 0
AllShort room [] = Unit
AllShort room (c ∷ cs) = (length c < room) × AllShort room cs

parse_candidates-AllShort :
    (rounds : ℕ) (p : List ℕ) → AllShort max_cand_size (parse_candidates rounds p)
unfolding parse_candidates
parse_candidates-AllShort zero p = tt
parse_candidates-AllShort (suc rounds) [] = tt
parse_candidates-AllShort (suc rounds) (c ∷ p) = elim (List-cases (skip_separators (c ∷ p))) [
  | inl e ↦ ground arith
  | inr (d, q, e) ↦ ground (
    arith,
    length-copy_string unescape_candidate max_cand_size 0 q,
    parse_candidates-AllShort rounds
        (skip_quote (copy_string unescape_candidate max_cand_size 0 q).1),
  )
]

-- Every candidate that is stored ends within its slot, whatever the text.
pub parse_candidates_array-AllShort :
    (json key : List ℕ) (max_count : ℕ)
    → AllShort max_cand_size (parse_candidates_array json key max_count)
unfolding parse_candidates_array
parse_candidates_array-AllShort json key max_count =
    elim (Option-cases (strstr json (array_pattern key))) [
      | inl e ↦ rw (e, parse_candidates_array) tt
      | inr (p, e) ↦
          rw (e, parse_candidates_array)
            (parse_candidates-AllShort max_count (drop (length (array_pattern key)) p))
    ]
