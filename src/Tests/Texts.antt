-- ===== src/Tests/Texts.antt =====
-- The JSON helpers at concrete texts.
use libp2pchannel.Prelude.{
  pos, ℕ, ◌≡◌, refl, inl, inr, true, some, List, [], ◌∷◌, ◌++◌, arith, ◌/◌, ◌%◌,
}
use libp2pchannel.Prelude.Text.{codes, strstr, starts_with, snprintf_s, atoi, strstr-append}
use libp2pchannel.Json.{
  json_get_int, quote, hex_digit, escape_char, escape_from, json_escape, unescape, copy_string,
  string_pattern, array_pattern, json_get_string, parse_candidates_array,
}
use libp2pchannel.Json.Fields.{json_get_string-json_escape, copy_string-control}
use libp2pchannel.Json.Escape.{escape_all}
use libp2pchannel.Signaling.Build.{
  Signal, build_signal_json, signal_pieces, candidate_pieces, more_candidates, emit_all, emit,
}
use libp2pchannel.Signaling.Build.Laws.{concat}
use libp2pchannel.Signaling.Candidates.{candidates_text, parse_candidates_array-candidate_pieces}

-- The key `id`, and a text with a quote, a backslash and a newline.
abbrev key : List ℕ
key = b'i' ∷ b'd' ∷ []

abbrev text : List ℕ
text = b'a' ∷ quote ∷ 92 ∷ 10 ∷ []

json_get_string-json_escape_example :
    json_get_string (string_pattern key ++ (json_escape text 64 ++ (quote ∷ []))) key 16
    ≡ (true, text)
json_get_string-json_escape_example =
    json_get_string-json_escape (string_pattern key ++ (json_escape text 64 ++ (quote ∷ []))) key
      text [] 64 16
      (
        inr (inr (inr (omega arith))),
        (inr (inr (inr (omega arith))), (inr (inr (inr (omega arith))), (inr (inl refl), tt))),
      )
      (omega arith) (omega arith)
      (strstr-append (string_pattern key) (json_escape text 64 ++ (quote ∷ [])))

copy_string-control_run :
    (copy_string unescape 64 0 (escape_char 27 ++ (quote ∷ []))).0
    ≡ b'u' ∷ b'0' ∷ b'0' ∷ hex_digit (27 / 16) ∷ hex_digit (27 % 16) ∷ []
copy_string-control_run =
    copy_string-control 27 64 [] (omega arith) (λ e. omega arith) (λ e. omega arith)
      (λ e. omega arith) (omega arith)

abbrev candidates : List (List ℕ)
candidates = (b'c' ∷ b'1' ∷ []) ∷ (b'c' ∷ 10 ∷ []) ∷ []

-- The message that offers these candidates.
abbrev offering : Signal
offering = record {
  type = codes "full_offer";
  peer_id = codes "a";
  token = [];
  to_peer = [];
  room_id = [];
  sdp = [];
  candidates = candidates;
}

abbrev offer_text : List ℕ
offer_text = (build_signal_json offering 8192).0.bytes

offered_there :
    strstr offer_text (array_pattern (codes "candidates"))
    ≡ some (candidates_text candidates (b'}' ∷ []))
unfolding build_signal_json signal_pieces candidate_pieces more_candidates json_escape escape_from
    escape_char emit_all emit concat strstr starts_with snprintf_s
offered_there = refl

parse_candidates_array-candidate_pieces_example :
    parse_candidates_array offer_text (codes "candidates") 16 ≡ candidates
unfolding escape_all escape_char
parse_candidates_array-candidate_pieces_example =
    parse_candidates_array-candidate_pieces offer_text (b'}' ∷ []) (b'c' ∷ b'1' ∷ [])
      ((b'c' ∷ 10 ∷ []) ∷ []) 16 (omega arith)
      (
        omega arith,
        (inr (omega arith), (inr (omega arith), tt)),
        omega arith,
        (omega arith, (inr (omega arith), (inl refl, tt)), omega arith, tt),
      )
      offered_there

seventeen :
    json_get_int (quote ∷ b'n' ∷ quote ∷ b':' ∷ b'1' ∷ b'7' ∷ b',' ∷ []) (b'n' ∷ []) ≡ pos 17
unfolding json_get_int strstr starts_with snprintf_s atoi
seventeen = refl
