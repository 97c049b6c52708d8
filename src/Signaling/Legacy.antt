-- ===== src/Signaling/Legacy.antt =====
-- `p2p_sig_message_to_json` of src/p2p/src/p2p_signaling.c, the writer that goes with
-- `p2p_sig_message_from_json`.
use libp2pchannel.Prelude.{
  ℕ, suc, ◌*◌, Option, none, some, List, [], ◌∷◌, ◌++◌, ltb, if◌then◌else◌, length, ℤ, pos, negsuc,
}
use libp2pchannel.Prelude.Text.{codes}
use libp2pchannel.Prelude.Decimal.{decimal}
use libp2pchannel.Json.{json_escape}
use libp2pchannel.Signaling.Message.{SigMessage, max_sdp_size}
use libp2pchannel.Signaling.Build.{quoted, member}

-- `%d`
abbrev pub signed_decimal : ℤ → List ℕ
signed_decimal (pos n) = decimal n
signed_decimal (negsuc n) = b'-' ∷ decimal (suc n)

-- `"name":number`
abbrev pub number_member : List ℕ → List ℕ → List ℕ
number_member name number = quoted name ++ (b':' ∷ number)

-- The members of the text; only the session description and the candidate are escaped.
abbrev pub message_members : SigMessage → List (List ℕ)
message_members m =
    member (codes "from") m.from_peer
    ∷ member (codes "to") m.to_peer
    ∷ member (codes "room") m.room_id
    ∷ member (codes "sdp") (json_escape m.sdp (max_sdp_size * 2))
    ∷ member (codes "candidate") (json_escape m.candidate (max_sdp_size * 2))
    ∷ member (codes "turn_username") m.turn_username
    ∷ member (codes "turn_password") m.turn_password
    ∷ member (codes "turn_server") m.turn_server
    ∷ number_member (codes "turn_port") (decimal m.turn_port)
    ∷ number_member (codes "turn_ttl") (decimal m.turn_ttl)
    ∷ []

-- The members behind the first, each behind a comma, and the closing brace.
abbrev pub members_text : List (List ℕ) → List ℕ
members_text [] = b'}' ∷ []
members_text (m ∷ ms) = b',' ∷ (m ++ members_text ms)

-- The text that the one `snprintf` prints.
unfoldable pub message_text : SigMessage → List ℕ
message_text m =
    b'{'
    ∷ (number_member (codes "type") (signed_decimal m.type) ++ members_text (message_members m))

-- `p2p_sig_message_to_json` into a buffer of `size` bytes; `none` is -1.
unfoldable pub p2p_sig_message_to_json : SigMessage → ℕ → Option (List ℕ)
unfolding message_text
p2p_sig_message_to_json m size =
    if ltb (length (message_text m)) size then some (message_text m) else none
