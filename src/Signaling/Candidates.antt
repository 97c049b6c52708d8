-- ===== src/Signaling/Candidates.antt =====
-- The candidates that `build_signal_json` of src/p2p/src/p2p_signaling.c prints and that
-- `parse_candidates_array` reads back.
use libp2pchannel.Prelude.{
  ℕ, ◌*◌, ◌≤◌, ◌≡◌, refl, ap, ◌∙◌, some, List, [], ◌∷◌, ◌++◌, append_assoc, arith, length, drop,
}
use libp2pchannel.Prelude.Text.{codes, strstr, snprintf_s}
use libp2pchannel.Json.{quote, max_cand_size, array_pattern, parse_candidates_array}
use libp2pchannel.Json.Escape.{escape_all, json_escape-fits}
use libp2pchannel.Json.Candidates.{
  AllFit, print_more, print_items, parse_candidates_array-print_items,
}
use libp2pchannel.Signaling.Build.{quoted, more_candidates, candidate_pieces}
use libp2pchannel.Signaling.Build.Laws.{concat}

-- What stands at the pattern of the array: the member without its leading comma, then `rest`.
abbrev pub candidates_text : List (List ℕ) → List ℕ → List ℕ
candidates_text cs rest = drop 1 (concat (candidate_pieces cs)) ++ rest

-- A text in quotes, then more.
quoted-append :
    (t more rest : List ℕ) → (quoted t ++ more) ++ rest ≡ quote ∷ (t ++ (quote ∷ (more ++ rest)))
quoted-append t more rest =
    ap (λ x. quote ∷ x)
      (ap (λ x. x ++ rest) (append_assoc t (quote ∷ []) more) ∙ append_assoc t (quote ∷ more) rest)

concat-more_candidates :
    (cs : List (List ℕ)) (rest : List ℕ)
    → AllFit cs
    → concat (more_candidates cs ++ ((b']' ∷ []) ∷ [])) ++ rest ≡ print_more cs rest
unfolding concat more_candidates print_more
concat-more_candidates [] rest f = refl
concat-more_candidates (c ∷ cs) rest (h, k, e, f) =
    rw (json_escape-fits c (max_cand_size * 2) (omega (arith, e))) (
      ap (λ x. b',' ∷ x)
        (quoted-append (escape_all c) (concat (more_candidates cs ++ ((b']' ∷ []) ∷ []))) rest
          ∙ ap (λ x. quote ∷ (escape_all c ++ (quote ∷ x))) (concat-more_candidates cs rest f)))

candidates_text-print_items :
    (c : List ℕ) (cs : List (List ℕ)) (rest : List ℕ)
    → AllFit (c ∷ cs)
    → candidates_text (c ∷ cs) rest
      ≡ array_pattern (codes "candidates") ++ print_items (c ∷ cs) rest
unfolding concat candidate_pieces print_items snprintf_s
candidates_text-print_items c cs rest (h, k, e, f) =
    rw (json_escape-fits c (max_cand_size * 2) (omega (arith, e))) (
      ap (λ x. array_pattern (codes "candidates") ++ x)
        (quoted-append (escape_all c) (concat (more_candidates cs ++ ((b']' ∷ []) ∷ []))) rest
          ∙ ap (λ x. quote ∷ (escape_all c ++ (quote ∷ x))) (concat-more_candidates cs rest f)))

-- If the first occurrence of the pattern of `candidates` is followed by the candidates as
-- `build_signal_json` prints them, `parse_candidates_array` returns exactly these candidates, in order.
-- There is at least one and at most `max_count` of them; each is shorter than its slot of 256 bytes, holds
-- no control character but newline, and has an escaped form of at most 506 bytes, which `json_escape` does
-- not cut.
pub parse_candidates_array-candidate_pieces :
    (json rest c : List ℕ) (cs : List (List ℕ)) (max_count : ℕ)
    → length (c ∷ cs) ≤ max_count
    → AllFit (c ∷ cs)
    → strstr json (array_pattern (codes "candidates")) ≡ some (candidates_text (c ∷ cs) rest)
    → parse_candidates_array json (codes "candidates") max_count ≡ c ∷ cs
parse_candidates_array-candidate_pieces json rest c cs max_count h fit found =
    parse_candidates_array-print_items json (codes "candidates") rest (c ∷ cs) max_count h fit
      (found ∙ ap some (candidates_text-print_items c cs rest fit))
