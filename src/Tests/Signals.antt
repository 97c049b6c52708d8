-- ===== src/Tests/Signals.antt =====
-- The posts and the messages of the signaling client at concrete inputs.
use libp2pchannel.Prelude.{
  ℕ, List, some, pos, ◌≡◌, refl, true, [], ◌∷◌, ◌++◌, arith, replicate, length, ltb,
}
use libp2pchannel.Prelude.Text.{codes, strstr, starts_with, atoi, snprintf_s}
use libp2pchannel.Prelude.Decimal.{decimal, digits}
use libp2pchannel.Signaling.Legacy.{message_text, p2p_sig_message_to_json}
use libp2pchannel.Signaling.Posts.{PostQueue, posts, works, run_steps}
use libp2pchannel.Signaling.Posts.Laws.{IsValid, contents, run_steps-in_order}
use libp2pchannel.Json.{
  json_escape, escape_from, escape_char, json_get_string, json_get_int, copy_string, unescape,
}
use libp2pchannel.Signaling.Build.{
  Signal, build_signal_json, emit_all, emit, signal_pieces, candidate_pieces, more_candidates,
}
use libp2pchannel.Signaling.Build.Laws.{concat, build_signal_json-outside}
use libp2pchannel.Signaling.Message.{
  SigMessage, message_from_json, peer_joined, map_event_type, map_event_type-event_name,
}

-- One body waits, in the last slot.
abbrev posting : PostQueue
posting = record { slots = replicate 31 [] ++ ((7 ∷ []) ∷ []); head = 31; tail = 0; running = true }

posting-IsValid : IsValid posting
posting-IsValid = record { storage = refl; head_in = omega arith; tail_in = omega arith }

run_steps-in_order_example :
    let (q', l) = run_steps (posts (8 ∷ []) ∷ works ∷ works ∷ works ∷ []) posting in
    (l.posted ++ contents q' ≡ contents posting ++ l.accepted) × IsValid q'
run_steps-in_order_example =
    run_steps-in_order (posts (8 ∷ []) ∷ works ∷ works ∷ works ∷ []) posting-IsValid

joined : map_event_type (codes "peer_joined") ≡ peer_joined
joined = map_event_type-event_name peer_joined (codes "peer_joined") refl

-- A request to join a room, with a candidate that holds a newline.
abbrev joining : Signal
joining = record {
  type = codes "join_room";
  peer_id = codes "bob";
  token = [];
  to_peer = [];
  room_id = codes "hall";
  sdp = [];
  candidates = (b'c' ∷ 10 ∷ []) ∷ [];
}

printed : (build_signal_json joining 256).1 ≡ true
unfolding build_signal_json emit_all emit signal_pieces candidate_pieces more_candidates json_escape
    escape_from escape_char
printed = refl

build_signal_json-outside_example :
    (build_signal_json joining 40).0.outside ≡ ltb 40 (length (concat (signal_pieces joining)))
build_signal_json-outside_example = build_signal_json-outside joining 40

-- Forty bytes are too few for it.
written_behind : (build_signal_json joining 40).0.outside ≡ true
unfolding build_signal_json emit_all emit signal_pieces candidate_pieces more_candidates json_escape
    escape_from escape_char
written_behind = refl

abbrev said : SigMessage
said = record {
  type = pos 4;
  from_peer = codes "a";
  to_peer = codes "b";
  room_id = codes "r";
  sdp = b'v' ∷ 10 ∷ b'"' ∷ [];
  candidate = codes "c";
  turn_username = [];
  turn_password = [];
  turn_server = [];
  turn_port = 3478;
  turn_ttl = 60;
}

-- A message that is printed is read back.
read_back :
    (text : List ℕ) × (p2p_sig_message_to_json said 512 ≡ some text)
    × (message_from_json text ≡ said)
unfolding p2p_sig_message_to_json message_text message_from_json json_escape escape_from escape_char
    decimal digits json_get_string json_get_int strstr starts_with copy_string unescape atoi
    snprintf_s
read_back = (message_text said, refl, refl)
