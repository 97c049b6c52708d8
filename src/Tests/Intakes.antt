-- ===== src/Tests/Intakes.antt =====
-- What arrives at a session, and its start, at concrete inputs.
use libp2pchannel.Prelude.{
  ℕ, ◌+◌, ◌≤◌, ◌≡◌, refl, ◌≢◌, ◌⊎◌, inr, true, false, none, some, [], ◌∷◌, arith, replicate,
}
use libp2pchannel.Prelude.Text.{codes, atoi}
use libp2pchannel.Adapter.FrameType
use libp2pchannel.Adapter.{FrameHeader}
use libp2pchannel.Peer.{fresh_peer}
use libp2pchannel.Session.{Session, SessionError, data_message}
use libp2pchannel.Session.Media.{World}
use libp2pchannel.Session.Reassembly.{Reasm, Intake, Frame, add_fragment, receive, reasm_buf_init}
use libp2pchannel.Session.Reassembly
use libp2pchannel.Session.Reassembly.Laws.{
  fragment_header, feed, concat, Complete, feed-frame, add_fragment-IsValid,
}
use libp2pchannel.Session.Reassembly.Receive.{IsIdle, receive-asks, duplicate_completes}
use libp2pchannel.Session.Receive.{channel_of, Arrival, intake_at, internal_on_data_recv}
use libp2pchannel.Session.Receive.Laws.{internal_on_data_recv-whole}
use libp2pchannel.Session.Create.{new_session}
use libp2pchannel.Session.Life.{Startup, session_start, split_last, to_uint16, parse_server}
use libp2pchannel.Session.Life.Laws.{
  Outcome, session_start-Outcome, session_start-ok, parse_server_lem,
}
use libp2pchannel.Prelude.Text.{strstr, starts_with}
use libp2pchannel.Session.Stats.{path_of, relay, direct, unknown}
use libp2pchannel.Tests.Sessions.{created}

abbrev buffer : Reasm
buffer = reasm_buf_init 0 4

buffer-IsValid : Reassembly.Laws.IsValid buffer
unfolding reasm_buf_init
buffer-IsValid = record { memory = refl; fits = λ e. cc; small = omega arith }

abbrev message : Frame
message = record { type = FrameType.data_msg; flags = 0; timestamp_us = 0; bytes = 7 ∷ 8 ∷ 9 ∷ [] }

add_fragment-IsValid_example :
    Reassembly.Laws.IsValid
      (add_fragment true (fragment_header message 1 2 (9 ∷ [])) (9 ∷ []) buffer).0
add_fragment-IsValid_example =
    add_fragment-IsValid true (fragment_header message 1 2 (9 ∷ [])) (9 ∷ []) buffer-IsValid
      (omega arith) (omega arith)

feed-frame_example : Complete message (feed message 1 0 ((7 ∷ 8 ∷ []) ∷ (9 ∷ []) ∷ []) buffer)
unfolding reasm_buf_init concat
feed-frame_example =
    feed-frame message 1 ((7 ∷ 8 ∷ []) ∷ (9 ∷ []) ∷ []) buffer-IsValid refl
      (omega arith, (omega arith, tt)) refl (omega arith) (omega arith)

abbrev intake : Intake
intake = record {
  video_reasm = buffer;
  audio_reasm = buffer;
  data_reasm = buffer;
  last_video_seq = 0;
  has_last_video_seq = false;
  waiting_for_keyframe = false;
  last_idr_req_us = 0;
}

intake-IsIdle : IsIdle intake
unfolding reasm_buf_init
intake-IsIdle = record {
  video_valid = buffer-IsValid;
  audio_valid = buffer-IsValid;
  data_valid = buffer-IsValid;
  video_idle = refl;
  audio_idle = refl;
  data_idle = refl;
}

abbrev listening : Session
listening = record created { peer_states = replicate 10 intake; data_recv_cb = true }

abbrev quiet : World
quiet = record {
  now = 90;
  allocated = λ i. true;
  cache_allocated = true;
  requested = λ i. true;
  written = λ i. true;
}

abbrev arrival : Arrival
arrival = record { gap_now = 10; incomplete_now = 11; first_now = 12; copy_allocated = true }

internal_on_data_recv-whole_example :
    let hdr = fragment_header message 1 0 message.bytes in
    let (s', ns) = internal_on_data_recv quiet arrival (fresh_peer 1) hdr message.bytes listening in
    (ns ≡ data_message [] 0 message.bytes ∷ [])
    × IsIdle (intake_at s' 1)
    × ((j : ℕ) → 1 ≢ j → intake_at s' j ≡ intake_at listening j)
unfolding new_session fresh_peer reasm_buf_init channel_of
internal_on_data_recv-whole_example =
    internal_on_data_recv-whole quiet arrival (fresh_peer 1) message 1 listening intake-IsIdle
      (inr (inr refl)) (omega arith) (omega arith) (omega arith) refl refl

abbrev late : FrameHeader
late = fragment_header (record message { type = FrameType.video }) 9 0 message.bytes

receive-asks_run :
    let (ps', asked, out) = receive true 10 11 late message.bytes intake in
    (asked ≤ 1) × ((asked ≡ 0) ⊎ (0 + 200000 ≤ 11))
receive-asks_run =
    receive-asks true 10 11 late message.bytes intake (omega arith) (omega arith) (omega arith)
      (omega arith)

abbrev halves : Frame
halves = record message { bytes = 7 ∷ 8 ∷ [] }

duplicate_completes_run :
    let h = fragment_header halves 1 0 (7 ∷ []) in
    (add_fragment true h (7 ∷ []) (add_fragment true h (7 ∷ []) buffer).0).1
    ≡ some (record halves { bytes = 7 ∷ 0 ∷ [] })
unfolding reasm_buf_init
duplicate_completes_run =
    duplicate_completes (7 ∷ []) halves 1 buffer (omega arith) refl (omega arith) (omega arith) refl

-- The signaling server cannot be reached.
abbrev unreachable : Startup
unreachable = record {
  started_us = 5;
  memory = true;
  xquic = true;
  thread = true;
  signaling = false;
}

session_start-Outcome_example : let (s', e, ns) = session_start unreachable created in Outcome s' e
unfolding new_session
session_start-Outcome_example = session_start-Outcome unreachable created refl refl refl refl

session_start-ok_run :
    let (s', e, ns) = session_start (record unreachable { signaling = true }) created in
    (e ≡ SessionError.ok) × (s'.session_running ≡ true)
unfolding new_session
session_start-ok_run =
    session_start-ok (record unreachable { signaling = true }) created refl refl refl refl refl refl

no_colon : split_last b':' (codes "99") ≡ none
unfolding split_last
no_colon = refl

parse_server_lem_run :
    (parse_server (codes "h:99") ≡ (codes "h", to_uint16 (atoi (codes "99"))))
    × (parse_server (codes "99") ≡ (codes "99", 3478))
parse_server_lem_run = parse_server_lem (codes "h") (codes "99") no_colon (omega arith)

-- A relayed path and a direct one.
paths :
    (path_of (codes "1 typ relay") ≡ (relay, codes "relay"))
    × (path_of (codes "1 typ srflx") ≡ (direct, codes "srflx"))
    × (path_of (codes "1") ≡ (unknown, []))
unfolding path_of strstr starts_with
paths = (refl, refl, refl)
