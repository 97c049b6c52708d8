-- ===== src/Signaling/Dispatch.antt =====
-- The event stream of src/p2p/src/p2p_signaling.c: what the reader thread makes of an event, and of the
-- answer to a join. The events themselves come from the TLS transport.
pub mod Laws
use libp2pchannel.Prelude.{
  ℕ, ◌%◌, ◌^◌, Bool, true, false, not, ◌&&◌, none, some, List, [], ◌∷◌, ◌++◌, if◌then◌else◌, set,
  to_uint64,
}
use libp2pchannel.Prelude.Text.{codes, strstr}
use libp2pchannel.Json.{json_get_int, parse_candidates_array, max_candidates, quote}
use libp2pchannel.Signaling.Message.{MsgType, map_event_type, field, max_sdp_size}

-- Which of `p2p_signaling_callbacks_t` are set.
pub record SigCallbacks : Type 0 where
  pub connected : Bool
  pub disconnected : Bool
  pub room_created : Bool
  pub peer_joined : Bool
  pub peer_left : Bool
  pub ice_offer : Bool
  pub ice_answer : Bool
  pub ice_candidate : Bool
  pub gathering_done : Bool
  pub turn_credentials : Bool
  pub publisher_ready : Bool
  pub request_offer : Bool
  pub error : Bool

-- The calls of these callbacks.
pub data SigCall : Type 0 where
  on_connected : SigCall
  on_disconnected : SigCall
  on_room_created : List ℕ → SigCall
  on_peer_joined : List ℕ → SigCall
  on_peer_left : List ℕ → SigCall
  on_ice_offer : List ℕ → List ℕ → SigCall
  on_ice_answer : List ℕ → List ℕ → SigCall
  on_ice_candidate : List ℕ → List ℕ → SigCall
  on_gathering_done : List ℕ → SigCall
  on_turn_credentials : List ℕ → List ℕ → List ℕ → ℕ → ℕ → SigCall
  on_publisher_ready : List ℕ → SigCall
  on_request_offer : List ℕ → SigCall
  on_error : List ℕ → SigCall

abbrev pub if_set : Bool → SigCall → List SigCall
if_set set call = if set then call ∷ [] else []

abbrev pub is_empty : List ℕ → Bool
is_empty [] = true
is_empty (c ∷ cs) = false

-- `P2P_SIG_MAX_PEER_ID` and `P2P_SIG_MAX_ROOM_ID`
abbrev pub max_peer_id : ℕ
max_peer_id = 64

abbrev pub max_room_id : ℕ
max_room_id = 64

-- The candidates of a full offer or answer, in order.
unfoldable pub candidate_calls : SigCallbacks → List ℕ → List (List ℕ) → List SigCall
candidate_calls cb from [] = []
candidate_calls cb from (c ∷ cs) =
    if_set cb.ice_candidate (on_ice_candidate from c) ++ candidate_calls cb from cs

-- `dispatch_full_ice`; `is_offer` says which of the two types it is.
unfoldable pub dispatch_full_ice : SigCallbacks → Bool → List ℕ → List SigCall
unfolding candidate_calls
dispatch_full_ice cb is_offer json =
    let from = field json (codes "from") max_peer_id in
    let sdp = field json (codes "sdp") max_sdp_size in
    let cands = parse_candidates_array json (codes "candidates") max_candidates in
    (if is_offer
      then if_set cb.ice_offer (on_ice_offer from sdp)
      else if_set cb.ice_answer (on_ice_answer from sdp))
    ++ (candidate_calls cb from cands ++ if_set cb.gathering_done (on_gathering_done from))

-- The credentials in a text, cut to their buffers, and the two numbers cast to 16 and 32 bits.
abbrev pub turn_call : List ℕ → SigCall
turn_call json =
    on_turn_credentials (field json (codes "username") 128) (field json (codes "password") 128)
      (field json (codes "server") 256) (to_uint64 (json_get_int json (codes "port")) % 2 ^ 16)
      (to_uint64 (json_get_int json (codes "ttl")) % 2 ^ 32)

-- `"turn":{`
abbrev pub turn_pattern : List ℕ
turn_pattern = quote ∷ (codes "turn" ++ (quote ∷ b':' ∷ b'{' ∷ []))

-- `dispatch_turn_from_response`
unfoldable pub dispatch_turn_from_response : SigCallbacks → List ℕ → List SigCall
dispatch_turn_from_response cb resp = elim (strstr resp turn_pattern) [
  | none ↦ []
  | some tp ↦
      if_set (not (is_empty (field tp (codes "username") 128)) && cb.turn_credentials)
        (turn_call tp)
]

-- One event of `sse_thread_func`.
unfoldable pub dispatch : SigCallbacks → MsgType → List ℕ → List SigCall
unfolding dispatch_full_ice
dispatch cb MsgType.room_info json =
    if_set cb.room_created (on_room_created (field json (codes "room_id") max_room_id))
dispatch cb MsgType.peer_joined json =
    if_set cb.peer_joined (on_peer_joined (field json (codes "peer_id") max_peer_id))
dispatch cb MsgType.peer_left json =
    if_set cb.peer_left (on_peer_left (field json (codes "peer_id") max_peer_id))
dispatch cb MsgType.ice_offer json =
    if_set cb.ice_offer
      (on_ice_offer (field json (codes "from") max_peer_id) (field json (codes "sdp") max_sdp_size))
dispatch cb MsgType.ice_answer json =
    if_set cb.ice_answer (
      on_ice_answer (field json (codes "from") max_peer_id) (field json (codes "sdp") max_sdp_size))
dispatch cb MsgType.ice_candidate json = if_set cb.ice_candidate (
    on_ice_candidate (field json (codes "from") max_peer_id)
      (field json (codes "candidate") max_sdp_size))
dispatch cb MsgType.gathering_done json =
    if_set cb.gathering_done (on_gathering_done (field json (codes "from") max_peer_id))
dispatch cb MsgType.turn_credentials json = if_set cb.turn_credentials (turn_call json)
dispatch cb MsgType.full_offer json = dispatch_full_ice cb true json
dispatch cb MsgType.full_answer json = dispatch_full_ice cb false json
dispatch cb MsgType.publisher_ready json =
    let publisher = field json (codes "publisher_id") max_peer_id in
    if_set (not (is_empty publisher) && cb.publisher_ready) (on_publisher_ready publisher)
dispatch cb MsgType.request_offer json =
    let from = field json (codes "from") max_peer_id in
    if_set (not (is_empty from) && cb.request_offer) (on_request_offer from)
dispatch cb MsgType.error json = if_set cb.error (on_error (field json (codes "error") 512))
dispatch cb _ json = []

-- What the reader thread meets: an event, a read that fails, and whether the client still runs then; a
-- client that was stopped is seen before a read.
pub data Reading : Type 0 where
  read_event : List ℕ → List ℕ → Reading
  read_failed : Bool → Reading
  stopped : Reading

-- `sse_thread_func` over what it meets; what comes after its end is not read.
unfoldable pub sse_thread_func : SigCallbacks → List Reading → List SigCall
unfolding dispatch
sse_thread_func cb [] = []
sse_thread_func cb (stopped ∷ rs) = []
sse_thread_func cb (read_failed running ∷ rs) = if_set (running && cb.disconnected) on_disconnected
sse_thread_func cb (read_event name json ∷ rs) =
    dispatch cb (map_event_type name) json ++ sse_thread_func cb rs
