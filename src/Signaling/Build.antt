-- ===== src/Signaling/Build.antt =====
-- `build_signal_json` of src/p2p/src/p2p_signaling.c: a text printed in pieces by `snprintf` into a buffer
-- of `size` bytes, with the offset that the results add up to.
pub mod Laws
use libp2pchannel.Prelude.{
  ℕ, ◌+◌, ◌-◌, ◌*◌, Bool, true, false, ◌&&◌, List, [], ◌∷◌, ◌++◌, ltb, if◌then◌else◌, length, take,
}
use libp2pchannel.Prelude.Text.{codes}
use libp2pchannel.Json.{quote, json_escape, max_cand_size}
use libp2pchannel.Signaling.Message.{max_sdp_size}

-- The offset `off`, the bytes of the buffer, and whether a byte was written behind it.
pub record Printed : Type 0 where
  pub off : ℕ
  pub bytes : List ℕ
  pub outside : Bool

-- `off += snprintf(buf + off, buf_sz - off, "%s", piece)`. Up to the end of the buffer, `snprintf` writes
-- what there is room for, less one byte for the NUL. Past it, `buf_sz - off` wraps to a huge size, and
-- the piece is written behind the buffer.
unfoldable pub emit : ℕ → List ℕ → Printed → Printed
emit size piece b =
    if ltb size b.off
    then record b { off = b.off + length piece; outside = true }
    else record b { off = b.off + length piece; bytes = b.bytes ++ take (size - b.off - 1) piece }

unfoldable pub emit_all : ℕ → List (List ℕ) → Printed → Printed
emit_all size [] b = b
emit_all size (piece ∷ pieces) b = emit_all size pieces (emit size piece b)

abbrev pub start : Printed
start = record { off = 0; bytes = []; outside = false }

-- `"text"`
abbrev pub quoted : List ℕ → List ℕ
quoted text = quote ∷ (text ++ (quote ∷ []))

-- `"name":"text"`
abbrev pub member : List ℕ → List ℕ → List ℕ
member name text = quoted name ++ (b':' ∷ quoted text)

-- The optional members, each behind a comma.
abbrev pub optional : List ℕ → List ℕ → List (List ℕ)
optional name [] = []
optional name (c ∷ text) = (b',' ∷ member name (c ∷ text)) ∷ []

unfoldable pub more_candidates : List (List ℕ) → List (List ℕ)
more_candidates [] = []
more_candidates (c ∷ cs) = (b',' ∷ quoted (json_escape c (max_cand_size * 2))) ∷ more_candidates cs

unfoldable pub candidate_pieces : List (List ℕ) → List (List ℕ)
unfolding more_candidates
candidate_pieces [] = []
candidate_pieces (c ∷ cs) =
    (b',' ∷ (quoted (codes "candidates") ++ (b':' ∷ b'[' ∷ [])))
    ∷ quoted (json_escape c (max_cand_size * 2))
    ∷ (more_candidates cs ++ ((b']' ∷ []) ∷ []))

-- The arguments of a call; an absent pointer is the empty text, which the code treats alike.
pub record Signal : Type 0 where
  pub type : List ℕ
  pub peer_id : List ℕ
  pub token : List ℕ
  pub to_peer : List ℕ
  pub room_id : List ℕ
  pub sdp : List ℕ
  pub candidates : List (List ℕ)

-- The `sdp` member, which is printed if the unescaped text is not empty.
abbrev pub sdp_pieces : List ℕ → List (List ℕ)
sdp_pieces [] = []
sdp_pieces (c ∷ sdp) = (b',' ∷ member (codes "sdp") (json_escape (c ∷ sdp) (max_sdp_size * 2))) ∷ []

-- The pieces before the closing brace.
unfoldable pub signal_pieces : Signal → List (List ℕ)
unfolding candidate_pieces
signal_pieces s =
    (b'{'
      ∷ (member (codes "type") s.type
          ++ (b','
              ∷ (member (codes "peer_id") s.peer_id ++ (b',' ∷ member (codes "token") s.token)))))
    ∷ (optional (codes "to") s.to_peer
        ++ (optional (codes "room_id") s.room_id
            ++ (sdp_pieces s.sdp ++ candidate_pieces s.candidates)))

abbrev pub closing : List (List ℕ)
closing = (b'}' ∷ []) ∷ []

-- `build_signal_json`: what is printed, and the result 0 or -1 as a truth value.
unfoldable pub build_signal_json : Signal → ℕ → Printed × Bool
build_signal_json s size =
    let b = emit_all size (signal_pieces s ++ closing) start in (b, ltb 0 b.off && ltb b.off size)
