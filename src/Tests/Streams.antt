-- ===== src/Tests/Streams.antt =====
-- Events and messages of the signaling client at concrete inputs.
use libp2pchannel.Prelude.{
  ℕ, ◌≡◌, refl, inr, true, ◌&&◌, some, List, [], ◌∷◌, ◌++◌, arith, ltb, if◌then◌else◌, length,
  replicate,
}
use libp2pchannel.Prelude.Text.{codes, strstr, starts_with, snprintf_s}
use libp2pchannel.Json.{json_escape, escape_from, escape_char, array_pattern, quote, string_pattern}
use libp2pchannel.Json.Candidates.{AllFit}
use libp2pchannel.Json.Escape.{escape_all}
use libp2pchannel.Signaling.Candidates.{candidates_text}
use libp2pchannel.Signaling.Build.Laws.{concat}
use libp2pchannel.Signaling.Message.{MsgType, field}
use libp2pchannel.Signaling.Posts.{PostQueue}
use libp2pchannel.Signaling.Posts.Laws.{IsValid, contents}
use libp2pchannel.Signaling.Build.{Signal, candidate_pieces, more_candidates}
use libp2pchannel.Signaling.Dispatch.{
  on_disconnected, on_ice_offer, on_ice_candidate, on_gathering_done, dispatch, read_event,
  read_failed, sse_thread_func,
}
use libp2pchannel.Signaling.Dispatch.Laws.{
  all_dispatched, sse_thread_func-in_order, dispatch-full_offer, AllCallsFit, dispatch-AllCallsFit,
}
use libp2pchannel.Signaling.Client.{Client, signal_of, send_signal_async, body_of}
use libp2pchannel.Signaling.Client.Laws.{is_some, text_of, send_signal_async-queued}
use libp2pchannel.Session.Events.{session_sig_callbacks, Answers, hear}
use libp2pchannel.Session.Events.Laws.{Kept, hear-Kept}
use libp2pchannel.Tests.Sessions.{created}

-- `"peer_id":"a"`
abbrev joined_json : List ℕ
joined_json = string_pattern (codes "peer_id") ++ (b'a' ∷ quote ∷ [])

sse_thread_func-in_order_run :
    sse_thread_func session_sig_callbacks
      (read_event (codes "peer_joined") joined_json ∷ read_failed true ∷ [])
    ≡ all_dispatched session_sig_callbacks ((codes "peer_joined", joined_json) ∷ [])
      ++ (on_disconnected ∷ [])
sse_thread_func-in_order_run =
    sse_thread_func-in_order session_sig_callbacks ((codes "peer_joined", joined_json) ∷ []) true []

-- `"candidates":["c"]`
abbrev offer_json : List ℕ
offer_json = candidates_text ((b'c' ∷ []) ∷ []) []

offer_found :
    strstr offer_json (array_pattern (codes "candidates"))
    ≡ some (candidates_text ((b'c' ∷ []) ∷ []) [])
unfolding concat candidate_pieces more_candidates json_escape escape_from escape_char strstr
    starts_with snprintf_s
offer_found = refl

one_candidate : AllFit ((b'c' ∷ []) ∷ [])
unfolding escape_all escape_char
one_candidate = (omega arith, (inr (omega arith), tt), omega arith, tt)

dispatch-full_offer_example :
    let from = field offer_json (codes "from") 64 in
    dispatch session_sig_callbacks MsgType.full_offer offer_json
    ≡ on_ice_offer from (field offer_json (codes "sdp") 4096)
      ∷ on_ice_candidate from (b'c' ∷ [])
      ∷ on_gathering_done from
      ∷ []
dispatch-full_offer_example =
    dispatch-full_offer session_sig_callbacks offer_json [] (b'c' ∷ []) [] refl refl refl
      (omega arith) one_candidate offer_found

dispatch-AllCallsFit_example :
    AllCallsFit 256 (dispatch session_sig_callbacks MsgType.peer_joined joined_json)
dispatch-AllCallsFit_example =
    dispatch-AllCallsFit session_sig_callbacks MsgType.peer_joined joined_json

abbrev no_posts : PostQueue
no_posts = record { slots = replicate 32 []; head = 0; tail = 0; running = true }

no_posts-IsValid : IsValid no_posts
no_posts-IsValid = record { storage = refl; head_in = omega arith; tail_in = omega arith }

abbrev client : Client
client = record {
  own_id = codes "p";
  auth = [];
  room = codes "r";
  sig_callbacks = session_sig_callbacks;
  is_connected = true;
  post_queue = no_posts;
}

abbrev message : Signal
message = signal_of (codes "ice_offer") (codes "b") (codes "r") (codes "v") [] client

send_signal_async-queued_example :
    let (c', ok) = send_signal_async message client in
    (ok ≡ (is_some (body_of message) && ltb (length (contents no_posts)) 31))
    × (contents c'.post_queue
        ≡ (if ok then contents no_posts ++ (text_of message ∷ []) else contents no_posts))
send_signal_async-queued_example = send_signal_async-queued message client no_posts-IsValid

-- libjuice and the clock answer each callback alike.
abbrev same_answers : ℕ → Answers
same_answers i = record {
  now = 9;
  creation = record { agent = some 8; allocated = true; created_us = 9 };
  local = some (codes "v");
}

hear-Kept_example :
    Kept created
      (hear same_answers
        (read_event (codes "peer_joined") joined_json ∷ read_failed true ∷ [])
        created).0
hear-Kept_example =
    hear-Kept same_answers (read_event (codes "peer_joined") joined_json ∷ read_failed true ∷ [])
      created
