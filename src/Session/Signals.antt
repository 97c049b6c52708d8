-- ===== src/Session/Signals.antt =====
-- The callbacks of src/p2p/src/p2pav.c that a session gives to the engine, for the peer of slot `i`, and to
-- the signaling client, with the calls of libjuice that src/p2p/src/p2p_adapter.c passes on. A time is
-- read from the clock as `now`; what libjuice answers is an argument.
pub mod Laws
pub mod Cached
use libp2pchannel.Prelude.{
  ℕ, ◌+◌, ◌%◌, ◌^◌, Bool, true, false, Option, none, some, List, [], ◌∷◌, ◌++◌, if◌then◌else◌,
  length, pos,
}
use libp2pchannel.Prelude.Text.{snprintf_s}
use libp2pchannel.Adapter.{IceState, is_publisher}
use libp2pchannel.Adapter.FrameType
use libp2pchannel.Peer.{Peer, Effect}
use libp2pchannel.Peer.Send.{send_data_via_quic}
use libp2pchannel.Engine.{Engine, peer_at, set_peer}
use libp2pchannel.Engine.Peers.{add_peer, find_peer, remove_peer}
use libp2pchannel.Session.{
  no_cache, cached, dangling, Session, Notice, SessionError, connected, disconnected, peer_ready,
  peer_joined, peer_left, session_error, send_create_room, send_join_room, send_ice_offer,
  send_ice_answer, send_ice_candidate, send_gathering_done, gather_candidates,
  set_remote_description, add_remote_candidate, set_remote_gathering_done, notify_if, notices_of,
}
use libp2pchannel.Session
use libp2pchannel.Session.Media.{World}

-- A call of libjuice on the peer's agent, which is not made without one.
abbrev pub on_agent : Peer → (ℕ → Notice) → List Notice
on_agent p call = elim p.ice_agent [ none ↦ [] | some agent ↦ call agent ∷ [] ]

abbrev pub is_up : IceState → Bool
is_up IceState.connected = true
is_up IceState.completed = true
is_up _ = false

abbrev pub is_lost : IceState → Bool
is_lost IceState.failed = true
is_lost _ = false

-- `internal_on_ice_state`
unfoldable pub internal_on_ice_state : ℕ → ℕ → IceState → Session → Session × List Notice
internal_on_ice_state now i state s = (
  if is_up state then record s { timing = record s.timing { ice_connected_us = now } } else s,
  if is_lost state
      then notify_if s.session_cbs.on_error
          (session_error SessionError.ice_failed (peer_at s.engine i).peer_id)
      else [],
)

-- The cached keyframe for a new subscriber. To read a cache that was freed is undefined; the model then
-- sends nothing.
unfoldable pub send_cached : World → ℕ → Session → Session
send_cached w i s = elim s.idr_cache [
  | no_cache ↦ s
  | dangling ↦ s
  | cached [] ↦ s
  | cached (byte ∷ bytes) ↦
      let p = peer_at s.engine i in
      let (p', wakeup, st) =
        send_data_via_quic s.engine.host w.now FrameType.video 1 s.video_seq w.now (byte ∷ bytes)
          (length (byte ∷ bytes)) (w.allocated p.index) p s.engine.next_wakeup_us in
      record s {
        video_seq = (s.video_seq + 1) % 2 ^ 32;
        engine = record (set_peer s.engine i p') { next_wakeup_us = wakeup };
      }
]

-- `internal_on_quic_connected`
unfoldable pub internal_on_quic_connected : World → ℕ → Session → Session × List Notice
unfolding send_cached
internal_on_quic_connected w i s = (
  if is_publisher s.role then send_cached w i s else s,
  notify_if s.session_cbs.on_peer_ready (peer_ready (peer_at s.engine i).peer_id),
)

-- `internal_on_ice_candidate`
unfoldable pub internal_on_ice_candidate : ℕ → List ℕ → Session → Session × List Notice
internal_on_ice_candidate i sdp s = (s, send_ice_candidate (peer_at s.engine i).peer_id sdp ∷ [])

-- The local description that `p2p_peer_get_local_description` has for a peer.
abbrev pub description_of : Option (List ℕ) → Peer → Option (List ℕ)
description_of local p = elim p.ice_agent [ none ↦ none | some agent ↦ local ]

-- `internal_on_ice_gathering_done`; `local` is libjuice's local description.
unfoldable pub internal_on_ice_gathering_done :
    ℕ → Option (List ℕ) → ℕ → Session → Session × List Notice
internal_on_ice_gathering_done now local i s =
    let p = peer_at s.engine i in
    let offer : List Notice = elim (description_of local p) [
      | none ↦ []
      | some sdp ↦ send_ice_offer p.peer_id sdp ∷ []
    ] in
    (
      record s {
        timing = record s.timing { ice_gathering_done_us = now };
        engine =
            if p.offer_pending
            then set_peer s.engine i (record p { offer_pending = false })
            else s.engine;
      },
      (if p.offer_pending then offer else []) ++ (send_gathering_done p.peer_id ∷ []),
    )

-- `internal_on_sig_connected`
unfoldable pub internal_on_sig_connected : ℕ → Session → Session × List Notice
internal_on_sig_connected now s = (
  record s { sig_connected = true; timing = record s.timing { signaling_connected_us = now } },
  (if is_publisher s.role then send_create_room s.room_id else send_join_room s.room_id)
      ∷ notify_if s.session_cbs.on_connected connected,
)

-- `internal_on_sig_disconnected`
unfoldable pub internal_on_sig_disconnected : Session → Session × List Notice
internal_on_sig_disconnected s = (
  record s { sig_connected = false },
  notify_if s.session_cbs.on_disconnected (disconnected SessionError.not_connected),
)

-- `internal_on_sig_room_created`
unfoldable pub internal_on_sig_room_created : ℕ → Session → Session
internal_on_sig_room_created now s = record s { timing = record s.timing { room_joined_us = now } }

-- What `p2p_engine_add_peer` is told by libjuice, by the memory and by the clock.
pub record Creation : Type 0 where
  pub agent : Option ℕ
  pub allocated : Bool
  pub created_us : ℕ

-- The end of `internal_on_sig_peer_joined` for a publisher, after `p2p_engine_add_peer`.
abbrev pub joined : ℕ → List ℕ → Engine × Option ℕ × List Effect → Session → Session × List Notice
joined now pid (eng, none, es) s = (
  record s { engine = eng },
  notices_of es ++ notify_if s.session_cbs.on_error (session_error SessionError.room_full pid),
)
joined now pid (eng, some i, es) s =
    let p = record (peer_at eng i) { offer_pending = true } in
    (
      record s {
        engine = set_peer eng i p;
        timing = record s.timing { ice_gathering_start_us = now };
      },
      notices_of es ++ on_agent p gather_candidates,
    )

-- `internal_on_sig_peer_joined`
unfoldable pub internal_on_sig_peer_joined : ℕ → Creation → List ℕ → Session → Session × List Notice
internal_on_sig_peer_joined now c pid s =
    let (s', ns) = joined now pid (add_peer pid c.agent c.allocated c.created_us s.engine) s in
    let told = notify_if s.session_cbs.on_peer_joined (peer_joined pid) in
    if is_publisher s.role then (s', told ++ ns) else (s, told)

-- `internal_on_sig_peer_left`
unfoldable pub internal_on_sig_peer_left : List ℕ → Session → Session × List Notice
internal_on_sig_peer_left pid s =
    let told = notify_if s.session_cbs.on_peer_left (peer_left pid) in
    elim (find_peer 0 pid s.engine.peers) [
      | none ↦ (s, told)
      | some i ↦
          let (eng, es) = remove_peer (pos (peer_at s.engine i).index) s.engine in
          (record s { engine = eng }, notices_of es ++ told)
    ]

-- The slot of the named peer, which `internal_on_sig_ice_offer` adds where there is none.
unfoldable pub find_or_add : Creation → List ℕ → Engine → Engine × Option ℕ × List Effect
find_or_add c from eng = elim (find_peer 0 from eng.peers) [
  | none ↦ add_peer from c.agent c.allocated c.created_us eng
  | some i ↦ (eng, some i, [])
]

-- `internal_on_sig_ice_offer` once it has the slot
abbrev pub answer :
    ℕ
    → Option (List ℕ)
    → List ℕ
    → List ℕ
    → Engine × Option ℕ × List Effect
    → Session
    → Session × List Notice
answer now local from sdp (eng, none, es) s = (record s { engine = eng }, notices_of es)
answer now local from sdp (eng, some i, es) s =
    let p = peer_at eng i in
    (
      record s { engine = eng; timing = record s.timing { ice_gathering_start_us = now } },
      notices_of es
          ++ (on_agent p (λ a. set_remote_description a sdp)
              ++ (elim (description_of local p) [
                | none ↦ []
                | some own ↦ send_ice_answer from own ∷ []
              ]
                  ++ on_agent p gather_candidates)),
    )

-- `internal_on_sig_ice_offer`
unfoldable pub internal_on_sig_ice_offer :
    ℕ → Creation → Option (List ℕ) → List ℕ → List ℕ → Session → Session × List Notice
unfolding find_or_add
internal_on_sig_ice_offer now c local from sdp s =
    answer now local from sdp (find_or_add c from s.engine) s

-- A call on the named peer's agent.
unfoldable pub for_named : List ℕ → (ℕ → Notice) → Session → List Notice
for_named from call s = elim (find_peer 0 from s.engine.peers) [
  | none ↦ []
  | some i ↦ on_agent (peer_at s.engine i) call
]

-- `internal_on_sig_ice_answer`
unfoldable pub internal_on_sig_ice_answer : List ℕ → List ℕ → Session → List Notice
internal_on_sig_ice_answer from sdp s = for_named from (λ a. set_remote_description a sdp) s

-- `internal_on_sig_ice_candidate`
unfoldable pub internal_on_sig_ice_candidate : List ℕ → List ℕ → Session → List Notice
internal_on_sig_ice_candidate from cand s = for_named from (λ a. add_remote_candidate a cand) s

-- `internal_on_sig_gathering_done`
unfoldable pub internal_on_sig_gathering_done : List ℕ → Session → List Notice
internal_on_sig_gathering_done from s = for_named from set_remote_gathering_done s

abbrev pub replaced : ℕ → Option (List ℕ) → List ℕ → List ℕ
replaced size none old = old
replaced size (some new) old = snprintf_s size new

-- The server and its port, unless there is none.
abbrev pub turn_server_set : Option (List ℕ) → ℕ → Engine → Engine
turn_server_set none port eng = eng
turn_server_set (some []) port eng = eng
turn_server_set (some (c ∷ cs)) port eng = record eng {
  turn_host = snprintf_s 256 (c ∷ cs);
  turn_port = port;
}

-- `internal_on_sig_turn`
unfoldable pub internal_on_sig_turn :
    Option (List ℕ) → Option (List ℕ) → Option (List ℕ) → ℕ → Session → Session
internal_on_sig_turn user pass server port s = if s.session_enable_tcp then s else record s {
  engine = record (turn_server_set server port s.engine) {
    turn_username = replaced 128 user s.engine.turn_username;
    turn_password = replaced 128 pass s.engine.turn_password;
  };
}
