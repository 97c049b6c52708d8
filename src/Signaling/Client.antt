-- ===== src/Signaling/Client.antt =====
-- The calls of the signaling client of src/p2p/src/p2p_signaling.c on its server: rooms, offers, answers
-- and candidates, posted at once or through the queue. The status that the server answers with, and its
-- text, are arguments.
pub mod Laws
use libp2pchannel.Prelude.{
  ℕ, ◌*◌, Bool, false, not, ◌&&◌, ◌||◌, Option, none, some, List, [], ◌∷◌, ◌++◌, ltb, leb, ◌==◌,
  if◌then◌else◌, length, ℤ, pos, negsuc,
}
use libp2pchannel.Prelude.Text.{codes, snprintf_s}
use libp2pchannel.Json.{json_escape}
use libp2pchannel.Signaling.Message.{max_sdp_size}
use libp2pchannel.Signaling.Posts.{PostQueue, max_msg_size, post_signal_async}
use libp2pchannel.Signaling.Build.{Signal, build_signal_json, member}
use libp2pchannel.Signaling.Dispatch.{
  SigCallbacks, SigCall, on_room_created, if_set, dispatch_turn_from_response,
}

-- `p2p_signaling_client_s`, less the server's address, the connections and the threads
pub record Client : Type 0 where
  pub own_id : List ℕ
  pub auth : List ℕ
  pub room : List ℕ
  pub sig_callbacks : SigCallbacks
  pub is_connected : Bool
  pub post_queue : PostQueue

-- The message of a call of `build_signal_json`.
abbrev pub signal_of : List ℕ → List ℕ → List ℕ → List ℕ → List (List ℕ) → Client → Signal
signal_of type to room sdp cands c = record {
  type = type;
  peer_id = c.own_id;
  token = c.auth;
  to_peer = to;
  room_id = room;
  sdp = sdp;
  candidates = cands;
}

-- `build_signal_json` into a body of 8192 bytes; `none` is a failure.
unfoldable pub body_of : Signal → Option (List ℕ)
body_of s = let (b, ok) = build_signal_json s max_msg_size in if ok then some b.bytes else none

-- A status of 200 to 299.
abbrev pub is_success : ℤ → Bool
is_success (negsuc n) = false
is_success (pos n) = leb 200 n && ltb n 300

abbrev pub is_conflict : ℤ → Bool
is_conflict (negsuc n) = false
is_conflict (pos n) = n == 409

-- A message that is posted at once: the body, if one is posted, and the result 0 or -1 as a truth value.
-- `p2p_signaling_send_ice_offer`, `_ice_answer`, `_gathering_done`, `_request_offer`, `_full_offer` and
-- `_full_answer` differ in their type and arguments.
unfoldable pub send_signal : Signal → ℤ → Client → Option (List ℕ) × Bool
unfolding body_of
send_signal s status c =
    if not c.is_connected
    then (none, false)
    else elim (body_of s) [ none ↦ (none, false) | some body ↦ (some body, is_success status) ]

-- A message through the queue: `p2p_signaling_send_ice_offer_async` and its companions.
unfoldable pub send_signal_async : Signal → Client → Client × Bool
unfolding body_of
send_signal_async s c = if not c.is_connected then (c, false) else elim (body_of s) [
  | none ↦ (c, false)
  | some body ↦
      let (q, ok) = post_signal_async body c.post_queue in (record c { post_queue = q }, ok)
]

abbrev pub send_ice_offer : List ℕ → List ℕ → ℤ → Client → Option (List ℕ) × Bool
send_ice_offer to sdp status c =
    send_signal (signal_of (codes "ice_offer") to c.room sdp [] c) status c

abbrev pub send_ice_answer : List ℕ → List ℕ → ℤ → Client → Option (List ℕ) × Bool
send_ice_answer to sdp status c =
    send_signal (signal_of (codes "ice_answer") to c.room sdp [] c) status c

abbrev pub send_gathering_done : List ℕ → ℤ → Client → Option (List ℕ) × Bool
send_gathering_done to status c =
    send_signal (signal_of (codes "gathering_done") to c.room [] [] c) status c

abbrev pub send_request_offer : List ℕ → ℤ → Client → Option (List ℕ) × Bool
send_request_offer to status c =
    send_signal (signal_of (codes "request_offer") to c.room [] [] c) status c

abbrev pub send_full_offer : List ℕ → List ℕ → List (List ℕ) → ℤ → Client → Option (List ℕ) × Bool
send_full_offer to sdp cands status c =
    send_signal (signal_of (codes "full_offer") to c.room sdp cands c) status c

abbrev pub send_full_answer : List ℕ → List ℕ → List (List ℕ) → ℤ → Client → Option (List ℕ) × Bool
send_full_answer to sdp cands status c =
    send_signal (signal_of (codes "full_answer") to c.room sdp cands c) status c

abbrev pub send_ice_offer_async : List ℕ → List ℕ → Client → Client × Bool
send_ice_offer_async to sdp c =
    send_signal_async (signal_of (codes "ice_offer") to c.room sdp [] c) c

abbrev pub send_ice_answer_async : List ℕ → List ℕ → Client → Client × Bool
send_ice_answer_async to sdp c =
    send_signal_async (signal_of (codes "ice_answer") to c.room sdp [] c) c

abbrev pub send_gathering_done_async : List ℕ → Client → Client × Bool
send_gathering_done_async to c =
    send_signal_async (signal_of (codes "gathering_done") to c.room [] [] c) c

-- The text that one `snprintf` prints for a candidate; only the candidate is escaped.
unfoldable pub candidate_text : List ℕ → List ℕ → Client → List ℕ
candidate_text to candidate c =
    b'{'
    ∷ (member (codes "type") (codes "ice_candidate")
        ++ (b',' ∷ member (codes "peer_id") c.own_id)
        ++ (b',' ∷ member (codes "token") c.auth)
        ++ (b',' ∷ member (codes "to") to)
        ++ (b',' ∷ member (codes "room_id") c.room)
        ++ (b',' ∷ member (codes "candidate") (json_escape candidate (max_sdp_size * 2)))
        ++ (b'}' ∷ []))

-- `p2p_signaling_send_ice_candidate`; a text that does not fit its body is not posted.
unfoldable pub send_ice_candidate : List ℕ → List ℕ → ℤ → Client → Option (List ℕ) × Bool
send_ice_candidate to candidate status c =
    let text = candidate_text to candidate c in
    if not c.is_connected
    then (none, false)
    else if leb max_msg_size (length text)
    then (none, false)
    else (some text, is_success status)

-- `p2p_signaling_send_ice_candidate_async`
unfoldable pub send_ice_candidate_async : List ℕ → List ℕ → Client → Client × Bool
send_ice_candidate_async to candidate c =
    let text = candidate_text to candidate c in
    let (q, ok) = post_signal_async text c.post_queue in
    if not c.is_connected
    then (c, false)
    else if leb max_msg_size (length text)
    then (c, false)
    else (record c { post_queue = q }, ok)

-- The client in a room.
abbrev pub entered : List ℕ → Client → Client
entered room_id c = record c { room = snprintf_s 64 room_id }

-- `p2p_signaling_create_room`: the client, the body, the callbacks and the result. A room that is there
-- already (409) is a success without a callback.
unfoldable pub create_room : List ℕ → ℤ → Client → Client × Option (List ℕ) × List SigCall × Bool
unfolding body_of
create_room room_id status c =
    if not c.is_connected
    then (c, none, [], false)
    else elim (body_of (signal_of (codes "create_room") [] room_id [] [] c)) [
      | none ↦ (entered room_id c, none, [], false)
      | some body ↦ (
        entered room_id c,
        some body,
        if is_success status
            then if_set c.sig_callbacks.room_created (on_room_created room_id)
            else [],
        is_success status || is_conflict status,
      )
    ]

-- `p2p_signaling_join_room`; `resp` is the server's answer.
unfoldable pub join_room :
    List ℕ → ℤ → List ℕ → Client → Client × Option (List ℕ) × List SigCall × Bool
unfolding body_of
join_room room_id status resp c =
    if not c.is_connected
    then (c, none, [], false)
    else elim (body_of (signal_of (codes "join_room") [] room_id [] [] c)) [
      | none ↦ (entered room_id c, none, [], false)
      | some body ↦ (
        entered room_id c,
        some body,
        if is_success status then dispatch_turn_from_response c.sig_callbacks resp else [],
        is_success status,
      )
    ]

-- `p2p_signaling_leave_room`
unfoldable pub leave_room : ℤ → Client → Client × Option (List ℕ) × Bool
unfolding body_of
leave_room status c =
    if not c.is_connected
    then (c, none, false)
    else elim (body_of (signal_of (codes "leave_room") [] c.room [] [] c)) [
      | none ↦ (c, none, false)
      | some body ↦ (record c { room = [] }, some body, is_success status)
    ]
