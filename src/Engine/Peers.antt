-- ===== src/Engine/Peers.antt =====
-- The peer table of src/p2p/src/p2p_adapter.c: `p2p_engine_add_peer`, `p2p_engine_remove_peer`,
-- `p2p_engine_find_peer`, the deferred removals of the engine thread, and the servers that a new
-- ICE agent is configured with.
pub mod Laws
pub mod Slots
use libp2pchannel.Prelude.{
  ℕ, zero, suc, ◌+◌, ◌-◌, Bool, true, false, not, ◌&&◌, Option, none, some, List, [], ◌∷◌, ◌++◌,
  leb, ◌==◌, if◌then◌else◌, set, ℤ, pos, negsuc,
}
use libp2pchannel.Prelude.Text.{snprintf_s, bytes_eq}
use libp2pchannel.Adapter.{idle, is_idle, is_publisher, max_subscribers}
use libp2pchannel.FrameQueue.{frame_queue_clear}
use libp2pchannel.Peer.{Peer, Effect, session_destroy, conn_close, juice_destroy, call_on, is_set}
use libp2pchannel.Engine.{Engine, peer_at, set_peer}

-- What `p2p_engine_add_peer` puts into `juice_config_t`, and the ICE-TCP mode that it sets.
pub record JuiceConfig : Type 0 where
  pub poll_mode : Bool
  pub stun : Option (List ℕ × ℕ)
  pub turn : Option (List ℕ × ℕ × List ℕ × List ℕ)
  pub tcp_passive : Option Bool

abbrev pub if_named {ℓ} : {A : Type ℓ} → List ℕ → A → Option A
if_named [] a = none
if_named (c ∷ cs) a = some a

unfoldable pub juice_config : Engine → JuiceConfig
juice_config eng = record {
  poll_mode = eng.enable_tcp;
  stun = if_named eng.stun_host (eng.stun_host, eng.stun_port);
  turn =
      if_named eng.turn_host (eng.turn_host, eng.turn_port, eng.turn_username, eng.turn_password);
  tcp_passive = if eng.enable_tcp then some (is_publisher eng.role) else none;
}

-- `p2p_engine_update_turn`; NULL and empty arguments keep what is there.
unfoldable pub update_turn :
    Option (List ℕ) → ℕ → Option (List ℕ) → Option (List ℕ) → Engine → Engine
update_turn host port username password eng = record eng {
  turn_host = elim host [ none ↦ eng.turn_host | some h ↦ non_empty h ];
  turn_port = if port == 0 then eng.turn_port else port;
  turn_username = elim username [ none ↦ eng.turn_username | some u ↦ snprintf_s 128 u ];
  turn_password = elim password [ none ↦ eng.turn_password | some w ↦ snprintf_s 128 w ];
}
  where
    non_empty : List ℕ → List ℕ
    non_empty [] = eng.turn_host
    non_empty (c ∷ cs) = snprintf_s 256 (c ∷ cs)

-- `eng->peers[i].state == P2P_PEER_STATE_IDLE && eng->peers[i].ice_agent == NULL`
abbrev pub is_free : Peer → Bool
is_free p = is_idle p.state && not (is_set p.ice_agent)

-- The first free slot.
unfoldable pub find_free : ℕ → List Peer → Option ℕ
find_free i [] = none
find_free i (p ∷ ps) = if is_free p then some i else find_free (i + 1) ps

-- The slot with its new name, before libjuice is asked for an agent.
abbrev pub named : Peer → List ℕ → Peer
named p id = record p { peer_id = snprintf_s 64 id }

-- The end of `p2p_engine_add_peer` for slot `i`: `created` is the result of `juice_create`,
-- `allocated` says whether a missing user session can be allocated. The result is the slot's index.
unfoldable pub add_at : ℕ → List ℕ → Option ℕ → Bool → ℕ → Engine → Engine × Option ℕ × List Effect
add_at i id none allocated now eng =
    (set_peer eng i (record (named (peer_at eng i) id) { ice_agent = none }), none, [])
add_at i id (some agent) allocated now eng =
    let p = named (peer_at eng i) id in
    if not p.has_user_session && not allocated
    then (set_peer eng i (record p { ice_agent = none }), none, juice_destroy agent ∷ [])
    else (
      record eng {
        peers =
            set eng.peers i
              (record p { ice_agent = some agent; has_user_session = true; created_us = now });
        peer_count = eng.peer_count + 1;
      },
      some i,
      [],
    )

-- `p2p_engine_add_peer`
unfoldable pub add_peer : List ℕ → Option ℕ → Bool → ℕ → Engine → Engine × Option ℕ × List Effect
unfolding add_at
add_peer id created allocated now eng =
    if leb max_subscribers eng.peer_count then (eng, none, []) else elim (find_free 0 eng.peers) [
      | none ↦ (eng, none, [])
      | some i ↦ add_at i id created allocated now eng
    ]

-- The slot that `p2p_engine_remove_peer` leaves. Flags, timestamps, the failure count, the user
-- session and the connection id stay as they are.
unfoldable pub removed : Peer → Peer
removed p = record p {
  xqc_conn = none;
  ice_agent = none;
  frame_queue = frame_queue_clear p.frame_queue;
  video_track = none;
  audio_track = none;
  video_subscribe_id = negsuc 0;
  audio_subscribe_id = negsuc 0;
  datachannel_ready = false;
  moq_session = none;
  state = idle;
  peer_id = [];
}

-- The calls that `p2p_engine_remove_peer` makes, in order.
unfoldable pub removal_effects : Bool → Peer → List Effect
removal_effects has_xqc_engine p =
    (if is_set p.xqc_conn && has_xqc_engine
      then call_on p.moq_session session_destroy ++ (conn_close p.cid ∷ [])
      else [])
    ++ call_on p.ice_agent juice_destroy

-- `p2p_engine_remove_peer`; an index out of range changes nothing.
unfoldable pub remove_peer : ℤ → Engine → Engine × List Effect
unfolding removed removal_effects
remove_peer (negsuc n) eng = (eng, [])
remove_peer (pos i) eng = if leb max_subscribers i then (eng, []) else (
  record eng { peers = set eng.peers i (removed (peer_at eng i)); peer_count = eng.peer_count - 1 },
  removal_effects eng.has_xqc_engine (peer_at eng i),
)

-- `p2p_engine_find_peer`: the first slot that has an ICE agent and the name.
unfoldable pub find_peer : ℕ → List ℕ → List Peer → Option ℕ
find_peer i id [] = none
find_peer i id (p ∷ ps) =
    if is_set p.ice_agent && bytes_eq p.peer_id id then some i else find_peer (i + 1) id ps

-- The deferred removals of `engine_thread_func`: `n` slots from index `i` on.
unfoldable pub deferred_removals : ℕ → ℕ → Engine → Engine × List Effect
deferred_removals i zero eng = (eng, [])
deferred_removals i (suc n) eng =
    let p = peer_at eng i in
    let (eng', es) =
      if p.needs_removal
      then remove_peer (pos i) (set_peer eng i (record p { needs_removal = false }))
      else (eng, []) in
    let (eng'', fs) = deferred_removals (i + 1) n eng' in (eng'', es ++ fs)
