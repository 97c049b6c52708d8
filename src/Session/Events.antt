-- ===== src/Session/Events.antt =====
-- How the session of src/p2p/src/p2pav.c hears of the signaling client's events: the callbacks that
-- `p2pav_session_start` gives to the client, and the session after a stream of events.
pub mod Laws
use libp2pchannel.Prelude.{ℕ, ◌+◌, true, false, Option, some, List, [], ◌∷◌, ◌++◌}
use libp2pchannel.Session.{Session, Notice}
use libp2pchannel.Session.Signals.{
  Creation, internal_on_sig_connected, internal_on_sig_disconnected, internal_on_sig_room_created,
  internal_on_sig_peer_joined, internal_on_sig_peer_left, internal_on_sig_ice_offer,
  internal_on_sig_ice_answer, internal_on_sig_ice_candidate, internal_on_sig_gathering_done,
  internal_on_sig_turn,
}
use libp2pchannel.Signaling.Dispatch.{
  SigCallbacks, SigCall, on_connected, on_disconnected, on_room_created, on_peer_joined,
  on_peer_left, on_ice_offer, on_ice_answer, on_ice_candidate, on_gathering_done,
  on_turn_credentials, on_publisher_ready, on_request_offer, on_error, Reading, sse_thread_func,
}

-- The callbacks in the session's `p2p_signaling_config_t`.
abbrev pub session_sig_callbacks : SigCallbacks
session_sig_callbacks = record {
  connected = true;
  disconnected = true;
  room_created = true;
  peer_joined = true;
  peer_left = true;
  ice_offer = true;
  ice_answer = true;
  ice_candidate = true;
  gathering_done = true;
  turn_credentials = true;
  publisher_ready = false;
  request_offer = false;
  error = false;
}

-- What the clock and libjuice answer during one callback.
pub record Answers : Type 0 where
  pub now : ℕ
  pub creation : Creation
  pub local : Option (List ℕ)

-- One callback.
unfoldable pub handle : Answers → SigCall → Session → Session × List Notice
handle a on_connected s = internal_on_sig_connected a.now s
handle a on_disconnected s = internal_on_sig_disconnected s
handle a (on_room_created room) s = (internal_on_sig_room_created a.now s, [])
handle a (on_peer_joined peer) s = internal_on_sig_peer_joined a.now a.creation peer s
handle a (on_peer_left peer) s = internal_on_sig_peer_left peer s
handle a (on_ice_offer from sdp) s = internal_on_sig_ice_offer a.now a.creation a.local from sdp s
handle a (on_ice_answer from sdp) s = (s, internal_on_sig_ice_answer from sdp s)
handle a (on_ice_candidate from candidate) s = (s, internal_on_sig_ice_candidate from candidate s)
handle a (on_gathering_done from) s = (s, internal_on_sig_gathering_done from s)
handle a (on_turn_credentials user pass server port ttl) s =
    (internal_on_sig_turn (some user) (some pass) (some server) port s, [])
handle a (on_publisher_ready publisher) s = (s, [])
handle a (on_request_offer from) s = (s, [])
handle a (on_error error) s = (s, [])

-- The callbacks in order; `answers` has what each of them is answered, by its number.
unfoldable pub handle_all : (ℕ → Answers) → ℕ → List SigCall → Session → Session × List Notice
unfolding handle
handle_all answers i [] s = (s, [])
handle_all answers i (c ∷ cs) s =
    let (s', ns) = handle (answers i) c s in
    let (s'', ms) = handle_all answers (i + 1) cs s' in (s'', ns ++ ms)

-- The session after what its reader thread meets.
abbrev pub hear : (ℕ → Answers) → List Reading → Session → Session × List Notice
hear answers rs s = handle_all answers 0 (sse_thread_func session_sig_callbacks rs) s
