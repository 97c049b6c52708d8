-- ===== src/Session/Life.antt =====
-- The life of a session of src/p2p/src/p2pav.c: start, stop, destruction, and kicking a peer.
-- What the system and the libraries answer is an argument.
pub mod Laws
use libp2pchannel.Prelude.{
  ℕ, ◌-◌, ◌%◌, ◌^◌, Bool, true, false, not, Option, none, some, List, [], ◌∷◌, ◌==◌, if◌then◌else◌,
  ℤ, pos, negsuc,
}
use libp2pchannel.Prelude.Text.{snprintf_s, atoi}
use libp2pchannel.PacketQueue.{Status, success, failure}
use libp2pchannel.Peer.{Callbacks}
use libp2pchannel.Engine.{Engine, peer_at}
use libp2pchannel.Engine.Peers.{find_peer, remove_peer}
use libp2pchannel.Engine.Life.{EngineConfig, engine_init, engine_start, engine_stop, engine_destroy}
use libp2pchannel.Session.Create.{no_engine_callbacks}
use libp2pchannel.Session.{
  no_cache, Session, SessionCallbacks, SessionError, Notice, notices_of, signaling_connect,
  signaling_disconnect,
}

-- `strrchr(text, c)`: what stands before and after the last occurrence.
unfoldable pub split_last : ℕ → List ℕ → Option (List ℕ × List ℕ)
split_last c [] = none
split_last c (x ∷ xs) = elim (split_last c xs) [
  | some (before, after) ↦ some (x ∷ before, after)
  | none ↦ if x == c then some ([], xs) else none
]

-- `(uint16_t)n`
abbrev pub to_uint16 : ℤ → ℕ
to_uint16 (pos n) = n % 2 ^ 16
to_uint16 (negsuc n) = 2 ^ 16 - 1 - n % 2 ^ 16

-- `host:port` as `p2pav_session_start` takes it apart; the port is 3478 without a colon.
unfoldable pub parse_server : List ℕ → List ℕ × ℕ
unfolding split_last
parse_server text = elim (split_last b':' (snprintf_s 256 text)) [
  | none ↦ (snprintf_s 256 text, 3478)
  | some (host, port) ↦ (host, to_uint16 (atoi port))
]

-- NULL for an empty string.
abbrev pub if_set : List ℕ → Option (List ℕ)
if_set [] = none
if_set (c ∷ cs) = some (c ∷ cs)

-- The callbacks that a session gives to its engine.
abbrev pub session_callbacks : Callbacks
session_callbacks = record no_engine_callbacks {
  ice_state = true;
  ice_candidate = true;
  ice_gathering_done = true;
  quic_connected = true;
  data_recv = true;
}

unfoldable pub engine_config : Session → EngineConfig
unfolding parse_server
engine_config s = record {
  role = s.role;
  callbacks = session_callbacks;
  stun_server_host = if_set (parse_server s.stun_server).0;
  stun_server_port = (parse_server s.stun_server).1;
  turn_server_host = if_set (parse_server s.turn_server).0;
  turn_server_port = (parse_server s.turn_server).1;
  turn_username = if_set s.session_turn_username;
  turn_password = if_set s.session_turn_password;
  enable_tcp = s.session_enable_tcp;
}

-- What `p2pav_session_start` is told: whether the engine has its memory, xquic its engine, the engine
-- its thread, and whether `p2p_signaling_connect` succeeds. The clock is `started_us`.
pub record Startup : Type 0 where
  pub started_us : ℕ
  pub memory : Bool
  pub xquic : Bool
  pub thread : Bool
  pub signaling : Bool

-- The end of `p2pav_session_start`, once the engine's thread runs.
abbrev pub connect_signaling : Startup → Engine → Session → Session × SessionError × List Notice
connect_signaling u eng s =
    let call = signaling_connect s.signaling_url s.own_id (if_set s.auth_token) in
    let (gone, es) = engine_destroy (engine_stop eng) in
    if u.signaling
    then (
      record s { engine = eng; engine_started = true; session_running = true },
      SessionError.ok,
      call ∷ [],
    )
    else (
      record s { engine = gone; engine_started = false },
      SessionError.not_connected,
      call ∷ notices_of es,
    )

abbrev pub run_engine : Startup → Engine × Status → Session → Session × SessionError × List Notice
run_engine u (eng, success) s = connect_signaling u eng s
run_engine u (eng, failure) s =
    let (gone, es) = engine_destroy eng in
    (record s { engine = gone }, SessionError.internal, notices_of es)

abbrev pub start_engine : Startup → Option Engine → Session → Session × SessionError × List Notice
start_engine u none s = (s, SessionError.internal, [])
start_engine u (some eng) s = run_engine u (engine_start u.thread eng) s

-- `p2pav_session_start`. What a failed `p2p_engine_init` leaves of the engine is not modelled.
unfoldable pub session_start : Startup → Session → Session × SessionError × List Notice
unfolding engine_config
session_start u s =
    if s.session_running
    then (s, SessionError.ok, [])
    else start_engine u (engine_init (engine_config s) u.memory u.xquic)
        (record s { timing = record s.timing { session_start_us = u.started_us } })

-- `p2pav_session_stop`
unfoldable pub session_stop : Session → Session × List Notice
session_stop s =
    let (gone, es) = engine_destroy (engine_stop s.engine) in
    let halted = record s {
      session_running = false;
      stats_running = false;
      sig_connected = false;
    } in
    if not s.session_running
    then (s, [])
    else if s.engine_started
    then (
      record halted { engine = gone; engine_started = false },
      signaling_disconnect ∷ notices_of es,
    )
    else (halted, signaling_disconnect ∷ [])

-- `p2pav_session_destroy`, up to the release of the memory. A cache that is `dangling` would be freed twice.
unfoldable pub session_destroy : Session → Session × List Notice
unfolding session_stop
session_destroy s = let (s', ns) = session_stop s in (record s' { idr_cache = no_cache }, ns)

-- `p2pav_session_set_callbacks`
abbrev pub set_callbacks : SessionCallbacks → Session → Session
set_callbacks cb s = record s { session_cbs = cb }

-- `p2pav_session_kick_peer`
unfoldable pub kick_peer : List ℕ → Session → Session × SessionError × List Notice
kick_peer peer_id s = elim (find_peer 0 peer_id s.engine.peers) [
  | none ↦ (s, SessionError.peer_not_found, [])
  | some i ↦
      let (eng, es) = remove_peer (pos (peer_at s.engine i).index) s.engine in
      (record s { engine = eng }, SessionError.ok, notices_of es)
]

-- `p2pav_session_get_peer_count`
abbrev pub get_peer_count : Session → ℕ
get_peer_count s = s.engine.peer_count
