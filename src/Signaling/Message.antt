-- ===== src/Signaling/Message.antt =====
-- The messages of src/p2p/src/p2p_signaling.c: the types of events, and a message read from JSON.
use libp2pchannel.Prelude.{
  ℕ, ◌%◌, ◌^◌, ◌<◌, ◌≡◌, refl, Option, none, some, List, arith, if◌then◌else◌, length, ℤ, to_uint64,
}
use native.Mathlib.Nat.{mod-lt}
use libp2pchannel.Prelude.Text.{codes, bytes_eq}
use libp2pchannel.Json.{json_get_string, json_get_int}
use libp2pchannel.Json.Fields.{length-json_get_string}

-- `p2p_sig_msg_type_t`
pub data MsgType : Type 0 where
  create_room join_room leave_room ice_offer ice_answer ice_candidate gathering_done
        turn_credentials room_info heartbeat error peer_joined peer_left full_offer full_answer
        publisher_ready request_offer :
      MsgType

-- `map_event_type`
unfoldable pub map_event_type : List ℕ → MsgType
map_event_type evt =
    if bytes_eq evt (codes "room_created")
    then room_info
    else if bytes_eq evt (codes "peer_joined")
    then peer_joined
    else if bytes_eq evt (codes "peer_left")
    then peer_left
    else if bytes_eq evt (codes "ice_offer")
    then ice_offer
    else if bytes_eq evt (codes "ice_answer")
    then ice_answer
    else if bytes_eq evt (codes "ice_candidate")
    then ice_candidate
    else if bytes_eq evt (codes "gathering_done")
    then gathering_done
    else if bytes_eq evt (codes "turn_credentials")
    then turn_credentials
    else if bytes_eq evt (codes "full_offer")
    then full_offer
    else if bytes_eq evt (codes "full_answer")
    then full_answer
    else if bytes_eq evt (codes "publisher_ready")
    then publisher_ready
    else if bytes_eq evt (codes "request_offer")
    then request_offer
    else if bytes_eq evt (codes "error")
    then error
    else heartbeat

-- The name of an event of each type that has one.
abbrev pub event_name : MsgType → Option (List ℕ)
event_name room_info = some (codes "room_created")
event_name peer_joined = some (codes "peer_joined")
event_name peer_left = some (codes "peer_left")
event_name ice_offer = some (codes "ice_offer")
event_name ice_answer = some (codes "ice_answer")
event_name ice_candidate = some (codes "ice_candidate")
event_name gathering_done = some (codes "gathering_done")
event_name turn_credentials = some (codes "turn_credentials")
event_name full_offer = some (codes "full_offer")
event_name full_answer = some (codes "full_answer")
event_name publisher_ready = some (codes "publisher_ready")
event_name request_offer = some (codes "request_offer")
event_name error = some (codes "error")
event_name _ = none

name_known :
    {name given : List ℕ} {t : MsgType}
    → some given ≡ some name
    → map_event_type given ≡ t
    → map_event_type name ≡ t
name_known e h = cc

-- `map_event_type` reads the name of each type of event as that type.
pub map_event_type-event_name :
    (t : MsgType) (name : List ℕ) → event_name t ≡ some name → map_event_type name ≡ t
unfolding map_event_type bytes_eq
map_event_type-event_name create_room name e = cc
map_event_type-event_name join_room name e = cc
map_event_type-event_name leave_room name e = cc
map_event_type-event_name heartbeat name e = cc
map_event_type-event_name room_info name e = name_known e refl
map_event_type-event_name peer_joined name e = name_known e refl
map_event_type-event_name peer_left name e = name_known e refl
map_event_type-event_name ice_offer name e = name_known e refl
map_event_type-event_name ice_answer name e = name_known e refl
map_event_type-event_name ice_candidate name e = name_known e refl
map_event_type-event_name gathering_done name e = name_known e refl
map_event_type-event_name turn_credentials name e = name_known e refl
map_event_type-event_name full_offer name e = name_known e refl
map_event_type-event_name full_answer name e = name_known e refl
map_event_type-event_name publisher_ready name e = name_known e refl
map_event_type-event_name request_offer name e = name_known e refl
map_event_type-event_name error name e = name_known e refl

-- `p2p_sig_message_t`, less the candidates, which this reader leaves zeroed
pub record SigMessage : Type 0 where
  pub type : ℤ
  pub from_peer : List ℕ
  pub to_peer : List ℕ
  pub room_id : List ℕ
  pub sdp : List ℕ
  pub candidate : List ℕ
  pub turn_username : List ℕ
  pub turn_password : List ℕ
  pub turn_server : List ℕ
  pub turn_port : ℕ
  pub turn_ttl : ℕ

-- `P2P_SIG_MAX_SDP_SIZE`
abbrev pub max_sdp_size : ℕ
max_sdp_size = 4096

-- What `json_get_string` leaves in a buffer.
abbrev pub field : List ℕ → List ℕ → ℕ → List ℕ
field json key size = (json_get_string json key size).1

-- `p2p_sig_message_from_json`; the port and the time to live are cast to 16 and 32 bits.
unfoldable pub message_from_json : List ℕ → SigMessage
message_from_json json = record {
  type = json_get_int json (codes "type");
  from_peer = field json (codes "from") 64;
  to_peer = field json (codes "to") 64;
  room_id = field json (codes "room") 64;
  sdp = field json (codes "sdp") max_sdp_size;
  candidate = field json (codes "candidate") max_sdp_size;
  turn_username = field json (codes "turn_username") 128;
  turn_password = field json (codes "turn_password") 128;
  turn_server = field json (codes "turn_server") 256;
  turn_port = to_uint64 (json_get_int json (codes "turn_port")) % 2 ^ 16;
  turn_ttl = to_uint64 (json_get_int json (codes "turn_ttl")) % 2 ^ 32;
}

-- Each text of the message ends within its array, and the numbers are within their types.
pub record Fits (m : SigMessage) : Type 0 where
  pub from_fits : length m.from_peer < 64
  pub to_fits : length m.to_peer < 64
  pub room_fits : length m.room_id < 64
  pub sdp_fits : length m.sdp < max_sdp_size
  pub candidate_fits : length m.candidate < max_sdp_size
  pub username_fits : length m.turn_username < 128
  pub password_fits : length m.turn_password < 128
  pub server_fits : length m.turn_server < 256
  pub port_fits : m.turn_port < 2 ^ 16
  pub ttl_fits : m.turn_ttl < 2 ^ 32

-- Whatever the text, every field of the message that `p2p_sig_message_from_json` reads fits its array or
-- its integer type.
pub message_from_json-Fits : (json : List ℕ) → Fits (message_from_json json)
unfolding message_from_json
message_from_json-Fits json = record {
  from_fits = length-json_get_string json (codes "from") 64 (omega arith);
  to_fits = length-json_get_string json (codes "to") 64 (omega arith);
  room_fits = length-json_get_string json (codes "room") 64 (omega arith);
  sdp_fits = length-json_get_string json (codes "sdp") max_sdp_size (omega arith);
  candidate_fits = length-json_get_string json (codes "candidate") max_sdp_size (omega arith);
  username_fits = length-json_get_string json (codes "turn_username") 128 (omega arith);
  password_fits = length-json_get_string json (codes "turn_password") 128 (omega arith);
  server_fits = length-json_get_string json (codes "turn_server") 256 (omega arith);
  port_fits = mod-lt (to_uint64 (json_get_int json (codes "turn_port"))) (omega arith);
  ttl_fits = mod-lt (to_uint64 (json_get_int json (codes "turn_ttl"))) (omega arith);
}
