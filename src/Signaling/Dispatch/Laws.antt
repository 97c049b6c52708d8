-- ===== src/Signaling/Dispatch/Laws.antt =====
-- The order and the size of what the reader thread of src/p2p/src/p2p_signaling.c tells the application.
use libp2pchannel.Prelude.{
  ℕ, ◌^◌, ◌≤◌, ◌<◌, ◌≡◌, refl, sym, ap, ◌∙◌, Bool, true, false, ◌&&◌, some, List, [], ◌∷◌, ◌++◌,
  map, append_assoc, arith, if◌then◌else◌, length, to_uint64,
}
use native.Mathlib.Nat.{mod-lt}
use libp2pchannel.Prelude.Text.{codes, strstr}
use libp2pchannel.Json.{
  json_get_int, array_pattern, parse_candidates_array, max_candidates, max_cand_size,
}
use libp2pchannel.Json.Fields.{length-json_get_string}
use libp2pchannel.Json.Candidates.{AllShort, parse_candidates_array-AllShort, AllFit}
use libp2pchannel.Signaling.Candidates.{candidates_text, parse_candidates_array-candidate_pieces}
use libp2pchannel.Signaling.Message.{MsgType, map_event_type, field, max_sdp_size}
use libp2pchannel.Signaling.Dispatch.{
  SigCallbacks, SigCall, on_disconnected, on_ice_offer, on_ice_answer, on_ice_candidate,
  on_gathering_done, on_room_created, on_peer_joined, on_peer_left, on_turn_credentials,
  on_publisher_ready, on_request_offer, on_error, on_connected, if_set, candidate_calls,
  dispatch_full_ice, dispatch, Reading, read_event, read_failed, sse_thread_func, max_peer_id,
  turn_call,
}

-- What a list of events leads to.
abbrev pub all_dispatched : SigCallbacks → List (List ℕ × List ℕ) → List SigCall
all_dispatched cb [] = []
all_dispatched cb ((name, json) ∷ es) =
    dispatch cb (map_event_type name) json ++ all_dispatched cb es

abbrev pub events_read : List (List ℕ × List ℕ) → List Reading → List Reading
events_read [] rs = rs
events_read ((name, json) ∷ es) rs = read_event name json ∷ events_read es rs

-- The reader thread hands on the events in the order in which they come; when a read fails it ends, and
-- tells the loss of the connection once, after all events, and only if the client was not stopped.
pub sse_thread_func-in_order :
    (cb : SigCallbacks) (es : List (List ℕ × List ℕ)) (running : Bool) (rest : List Reading)
    → sse_thread_func cb (events_read es (read_failed running ∷ rest))
      ≡ all_dispatched cb es ++ if_set (running && cb.disconnected) on_disconnected
unfolding sse_thread_func
sse_thread_func-in_order cb [] running rest = refl
sse_thread_func-in_order cb ((name, json) ∷ es) running rest =
    ap (λ cs. dispatch cb (map_event_type name) json ++ cs)
      (sse_thread_func-in_order cb es running rest)
    ∙ sym (append_assoc (dispatch cb (map_event_type name) json) (all_dispatched cb es) _)

candidate_calls-map :
    (cb : SigCallbacks) (from : List ℕ) (cs : List (List ℕ))
    → cb.ice_candidate ≡ true
    → candidate_calls cb from cs ≡ map (on_ice_candidate from) cs
unfolding candidate_calls
candidate_calls-map cb from [] s = refl
candidate_calls-map cb from (c ∷ cs) s =
    rw s (ap (λ t. on_ice_candidate from c ∷ t) (candidate_calls-map cb from cs s))

-- A full offer leads to the offer, then to its candidates in order, then to the end of the gathering, all
-- from the same peer. The text holds 1 to 16 candidates as `build_signal_json` prints them, each of which
-- fits its slot, has no control character but newline and an escaped form of at most 506 bytes; the callbacks
-- are set.
pub dispatch-full_offer :
    (cb : SigCallbacks) (json rest cand : List ℕ) (others : List (List ℕ))
    → cb.ice_offer ≡ true
    → cb.ice_candidate ≡ true
    → cb.gathering_done ≡ true
    → length (cand ∷ others) ≤ max_candidates
    → AllFit (cand ∷ others)
    → strstr json (array_pattern (codes "candidates")) ≡ some (candidates_text (cand ∷ others) rest)
    → let cs = cand ∷ others in
      let from = field json (codes "from") max_peer_id in
      dispatch cb MsgType.full_offer json
      ≡ on_ice_offer from (field json (codes "sdp") max_sdp_size)
        ∷ (map (on_ice_candidate from) cs ++ (on_gathering_done from ∷ []))
unfolding dispatch dispatch_full_ice
dispatch-full_offer cb json rest cand others o c g few fit found =
    let from = field json (codes "from") max_peer_id in
    rw
      (
        o,
        g,
        parse_candidates_array-candidate_pieces json rest cand others max_candidates few fit found,
        candidate_calls-map cb from (cand ∷ others) c,
      )
      refl

-- The array of a candidate: that of an event with one candidate, or a slot of a full offer or answer.
abbrev pub candidate_room : MsgType → ℕ
candidate_room MsgType.ice_candidate = max_sdp_size
candidate_room _ = max_cand_size

-- A call's texts end within the arrays that they come from, a candidate within `room` bytes.
abbrev pub CallFits : ℕ → SigCall → Type 0
CallFits slot (on_room_created room) = length room < 64
CallFits slot (on_peer_joined peer) = length peer < 64
CallFits slot (on_peer_left peer) = length peer < 64
CallFits slot (on_ice_offer from sdp) = (length from < 64) × (length sdp < max_sdp_size)
CallFits slot (on_ice_answer from sdp) = (length from < 64) × (length sdp < max_sdp_size)
CallFits room (on_ice_candidate from candidate) = (length from < 64) × (length candidate < room)
CallFits slot (on_gathering_done from) = length from < 64
CallFits slot (on_turn_credentials user pass server port ttl) =
    (length user < 128)
    × (length pass < 128)
    × (length server < 256)
    × (port < 2 ^ 16)
    × (ttl < 2 ^ 32)
CallFits slot (on_publisher_ready publisher) = length publisher < 64
CallFits slot (on_request_offer from) = length from < 64
CallFits slot (on_error error) = length error < 512
CallFits slot on_connected = Unit
CallFits slot on_disconnected = Unit

abbrev pub AllCallsFit : ℕ → List SigCall → Type 0
AllCallsFit room [] = Unit
AllCallsFit room (c ∷ cs) = CallFits room c × AllCallsFit room cs

if_set-fit :
    (room : ℕ) (set : Bool) (call : SigCall)
    → CallFits room call
    → AllCallsFit room (if_set set call)
if_set-fit room true call f = (f, tt)
if_set-fit room false call f = tt

append-fit :
    (room : ℕ) (xs ys : List SigCall)
    → AllCallsFit room xs
    → AllCallsFit room ys
    → AllCallsFit room (xs ++ ys)
append-fit room [] ys a b = b
append-fit room (x ∷ xs) ys a b = (a.0, append-fit room xs ys a.1 b)

candidate_calls-fit :
    (cb : SigCallbacks) (from : List ℕ) (cs : List (List ℕ))
    → length from < 64
    → AllShort max_cand_size cs
    → AllCallsFit max_cand_size (candidate_calls cb from cs)
unfolding candidate_calls
candidate_calls-fit cb from [] f g = tt
candidate_calls-fit cb from (c ∷ cs) f g =
    append-fit max_cand_size (if_set cb.ice_candidate (on_ice_candidate from c))
      (candidate_calls cb from cs)
      (if_set-fit max_cand_size cb.ice_candidate (on_ice_candidate from c) (f, g.0))
      (candidate_calls-fit cb from cs f g.1)

field-fits : (json key : List ℕ) (size : ℕ) → 0 < size → length (field json key size) < size
field-fits json key size h = length-json_get_string json key size h

turn_call-fits : (room : ℕ) (json : List ℕ) → CallFits room (turn_call json)
turn_call-fits room json = (
  field-fits json (codes "username") 128 (omega arith),
  field-fits json (codes "password") 128 (omega arith),
  field-fits json (codes "server") 256 (omega arith),
  mod-lt (to_uint64 (json_get_int json (codes "port"))) (omega arith),
  mod-lt (to_uint64 (json_get_int json (codes "ttl"))) (omega arith),
)

full_ice-fits :
    (cb : SigCallbacks) (is_offer : Bool) (json : List ℕ)
    → AllCallsFit max_cand_size (dispatch_full_ice cb is_offer json)
unfolding dispatch_full_ice
full_ice-fits cb is_offer json =
    let from = field json (codes "from") max_peer_id in
    let sdp = field json (codes "sdp") max_sdp_size in
    let f = field-fits json (codes "from") 64 (omega arith) in
    let d = field-fits json (codes "sdp") max_sdp_size (omega arith) in
    append-fit max_cand_size _ _ (both is_offer from sdp f d) (
      append-fit max_cand_size _ _
        (candidate_calls-fit cb from
          (parse_candidates_array json (codes "candidates") max_candidates) f
          (parse_candidates_array-AllShort json (codes "candidates") max_candidates))
        (if_set-fit max_cand_size cb.gathering_done (on_gathering_done from) f))
  where
    both :
        (is_offer : Bool) (from sdp : List ℕ)
        → length from < 64
        → length sdp < max_sdp_size
        → AllCallsFit max_cand_size (
            if is_offer
            then if_set cb.ice_offer (on_ice_offer from sdp)
            else if_set cb.ice_answer (on_ice_answer from sdp))
    both true from sdp f d = if_set-fit max_cand_size cb.ice_offer (on_ice_offer from sdp) (f, d)
    both false from sdp f d = if_set-fit max_cand_size cb.ice_answer (on_ice_answer from sdp) (f, d)

-- Whatever an event holds, the texts that the callbacks get end within their arrays, and port and time to
-- live within their types. A candidate ends within the array of an event with one candidate, or within its
-- slot of 256 bytes in a full offer or answer.
pub dispatch-AllCallsFit :
    (cb : SigCallbacks) (t : MsgType) (json : List ℕ)
    → AllCallsFit (candidate_room t) (dispatch cb t json)
unfolding dispatch
dispatch-AllCallsFit cb MsgType.room_info json =
    if_set-fit max_cand_size cb.room_created _ (field-fits json (codes "room_id") 64 (omega arith))
dispatch-AllCallsFit cb MsgType.peer_joined json =
    if_set-fit max_cand_size cb.peer_joined _ (field-fits json (codes "peer_id") 64 (omega arith))
dispatch-AllCallsFit cb MsgType.peer_left json =
    if_set-fit max_cand_size cb.peer_left _ (field-fits json (codes "peer_id") 64 (omega arith))
dispatch-AllCallsFit cb MsgType.ice_offer json = if_set-fit max_cand_size cb.ice_offer _ (
  field-fits json (codes "from") 64 (omega arith),
  field-fits json (codes "sdp") max_sdp_size (omega arith),
)
dispatch-AllCallsFit cb MsgType.ice_answer json = if_set-fit max_cand_size cb.ice_answer _ (
  field-fits json (codes "from") 64 (omega arith),
  field-fits json (codes "sdp") max_sdp_size (omega arith),
)
dispatch-AllCallsFit cb MsgType.ice_candidate json = if_set-fit max_sdp_size cb.ice_candidate _ (
  field-fits json (codes "from") 64 (omega arith),
  field-fits json (codes "candidate") max_sdp_size (omega arith),
)
dispatch-AllCallsFit cb MsgType.gathering_done json =
    if_set-fit max_cand_size cb.gathering_done _ (field-fits json (codes "from") 64 (omega arith))
dispatch-AllCallsFit cb MsgType.turn_credentials json =
    if_set-fit max_cand_size cb.turn_credentials (turn_call json)
      (turn_call-fits max_cand_size json)
dispatch-AllCallsFit cb MsgType.full_offer json = full_ice-fits cb true json
dispatch-AllCallsFit cb MsgType.full_answer json = full_ice-fits cb false json
dispatch-AllCallsFit cb MsgType.publisher_ready json =
    if_set-fit max_cand_size _ _ (field-fits json (codes "publisher_id") 64 (omega arith))
dispatch-AllCallsFit cb MsgType.request_offer json =
    if_set-fit max_cand_size _ _ (field-fits json (codes "from") 64 (omega arith))
dispatch-AllCallsFit cb MsgType.error json =
    if_set-fit max_cand_size cb.error _ (field-fits json (codes "error") 512 (omega arith))
dispatch-AllCallsFit cb MsgType.create_room json = tt
dispatch-AllCallsFit cb MsgType.join_room json = tt
dispatch-AllCallsFit cb MsgType.leave_room json = tt
dispatch-AllCallsFit cb MsgType.heartbeat json = tt
