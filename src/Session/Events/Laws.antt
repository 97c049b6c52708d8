-- ===== src/Session/Events/Laws.antt =====
-- What no event of the signaling server changes in a session of src/p2p/src/p2pav.c.
use libp2pchannel.Prelude.{
  ℕ, ◌+◌, ◌≡◌, refl, ◌∙◌, inl, inr, Bool, Option, none, some, List, [], ◌∷◌, arith, Option-cases,
  length, length-set, ℤ, pos, negsuc,
}
use libp2pchannel.Peer.{Effect}
use libp2pchannel.Engine.{Engine, peer_at}
use libp2pchannel.Engine.Peers.{named, add_peer, add_at, find_free, remove_peer, removed, find_peer}
use libp2pchannel.Engine.Peers.Laws.{added_slot}
use libp2pchannel.Session.{Session}
use libp2pchannel.Session.Signals.{
  Creation, joined, answer, find_or_add, internal_on_sig_connected, internal_on_sig_disconnected,
  internal_on_sig_room_created, internal_on_sig_peer_joined, internal_on_sig_peer_left,
  internal_on_sig_ice_offer, internal_on_sig_turn,
}
use libp2pchannel.Signaling.Dispatch.{
  SigCall, Reading, sse_thread_func, on_connected, on_disconnected, on_room_created, on_peer_joined,
  on_peer_left, on_ice_offer, on_ice_answer, on_ice_candidate, on_gathering_done,
  on_turn_credentials, on_publisher_ready, on_request_offer, on_error,
}
use libp2pchannel.Session.Events.{Answers, handle, handle_all, hear, session_sig_callbacks}

-- What stays: how many slots the engine has, whether the session runs, its role, its data channels, the
-- numbers of its video and audio frames and of its messages, its cached keyframe and what has come in from
-- the peers.
abbrev pub Kept : Session → Session → Type 0
Kept s s' =
    (length s'.engine.peers ≡ length s.engine.peers)
    × (s'.session_running ≡ s.session_running)
    × (s'.engine_started ≡ s.engine_started)
    × (s'.role ≡ s.role)
    × (s'.data_channels ≡ s.data_channels)
    × (s'.next_channel_id ≡ s.next_channel_id)
    × (s'.video_seq ≡ s.video_seq)
    × (s'.audio_seq ≡ s.audio_seq)
    × (s'.data_seq ≡ s.data_seq)
    × (s'.idr_cache ≡ s.idr_cache)
    × (s'.peer_states ≡ s.peer_states)

all_same : (s : Session) → Kept s s
all_same s = (refl, refl, refl, refl, refl, refl, refl, refl, refl, refl, refl)

length-add_at :
    (i : ℕ) (id : List ℕ) (created : Option ℕ) (allocated : Bool) (now : ℕ) (eng : Engine)
    → length (add_at i id created allocated now eng).0.peers ≡ length eng.peers
unfolding add_at
length-add_at i id none allocated now eng = length-set eng.peers i _
length-add_at i id (some agent) allocated now eng = ground (
  arith,
  length-set eng.peers i (record (named (peer_at eng i) id) { ice_agent = none }),
  length-set eng.peers i (added_slot i id agent now eng),
)

length-add_peer :
    (id : List ℕ) (created : Option ℕ) (allocated : Bool) (now : ℕ) (eng : Engine)
    → length (add_peer id created allocated now eng).0.peers ≡ length eng.peers
unfolding add_peer
length-add_peer id created allocated now eng = elim (Option-cases (find_free 0 eng.peers)) [
  | inl e ↦ ground (arith, e)
  | inr (i, e) ↦ ground (arith, e, length-add_at i id created allocated now eng)
]

joined-Kept :
    (now : ℕ) (pid : List ℕ) (r : Engine × Option ℕ × List Effect) (s : Session)
    → length r.0.peers ≡ length s.engine.peers
    → Kept s (joined now pid r s).0
joined-Kept now pid (eng, none, es) s e =
    (e, refl, refl, refl, refl, refl, refl, refl, refl, refl, refl)
joined-Kept now pid (eng, some i, es) s e =
    (length-set eng.peers i _ ∙ e, refl, refl, refl, refl, refl, refl, refl, refl, refl, refl)

peer_joined-Kept :
    (now : ℕ) (c : Creation) (pid : List ℕ) (s : Session)
    → Kept s (internal_on_sig_peer_joined now c pid s).0
unfolding internal_on_sig_peer_joined
peer_joined-Kept now c pid s = ground (
  arith,
  joined-Kept now pid (add_peer pid c.agent c.allocated c.created_us s.engine) s
      (length-add_peer pid c.agent c.allocated c.created_us s.engine),
)

length-remove_peer : (k : ℤ) (eng : Engine) → length (remove_peer k eng).0.peers ≡ length eng.peers
unfolding remove_peer
length-remove_peer (negsuc n) eng = refl
length-remove_peer (pos i) eng = ground (arith, length-set eng.peers i (removed (peer_at eng i)))

peer_left-Kept : (pid : List ℕ) (s : Session) → Kept s (internal_on_sig_peer_left pid s).0
unfolding internal_on_sig_peer_left
peer_left-Kept pid s = elim (Option-cases (find_peer 0 pid s.engine.peers)) [
  | inl e ↦ ground (arith, e)
  | inr (i, e) ↦ ground (arith, e, length-remove_peer (pos (peer_at s.engine i).index) s.engine)
]

answer-Kept :
    (now : ℕ) (local : Option (List ℕ)) (from sdp : List ℕ) (r : Engine × Option ℕ × List Effect)
    (s : Session)
    → length r.0.peers ≡ length s.engine.peers
    → Kept s (answer now local from sdp r s).0
answer-Kept now local from sdp (eng, none, es) s e =
    (e, refl, refl, refl, refl, refl, refl, refl, refl, refl, refl)
answer-Kept now local from sdp (eng, some i, es) s e =
    (e, refl, refl, refl, refl, refl, refl, refl, refl, refl, refl)

length-find_or_add :
    (c : Creation) (from : List ℕ) (eng : Engine)
    → length (find_or_add c from eng).0.peers ≡ length eng.peers
unfolding find_or_add
length-find_or_add c from eng =
    ground (arith, length-add_peer from c.agent c.allocated c.created_us eng)

ice_offer-Kept :
    (now : ℕ) (c : Creation) (local : Option (List ℕ)) (from sdp : List ℕ) (s : Session)
    → Kept s (internal_on_sig_ice_offer now c local from sdp s).0
unfolding internal_on_sig_ice_offer
ice_offer-Kept now c local from sdp s =
    answer-Kept now local from sdp (find_or_add c from s.engine) s
      (length-find_or_add c from s.engine)

turn-Kept :
    (user pass server : Option (List ℕ)) (port : ℕ) (s : Session)
    → Kept s (internal_on_sig_turn user pass server port s)
unfolding internal_on_sig_turn
turn-Kept user pass none port s = ground arith
turn-Kept user pass (some []) port s = ground arith
turn-Kept user pass (some (c ∷ cs)) port s = ground arith

handle-Kept : (a : Answers) (c : SigCall) (s : Session) → Kept s (handle a c s).0
unfolding handle internal_on_sig_connected internal_on_sig_disconnected internal_on_sig_room_created
handle-Kept a on_connected s = all_same s
handle-Kept a on_disconnected s = all_same s
handle-Kept a (on_room_created room) s = all_same s
handle-Kept a (on_peer_joined peer) s = peer_joined-Kept a.now a.creation peer s
handle-Kept a (on_peer_left peer) s = peer_left-Kept peer s
handle-Kept a (on_ice_offer from sdp) s = ice_offer-Kept a.now a.creation a.local from sdp s
handle-Kept a (on_ice_answer from sdp) s = all_same s
handle-Kept a (on_ice_candidate from cand) s = all_same s
handle-Kept a (on_gathering_done from) s = all_same s
handle-Kept a (on_turn_credentials user pass server port ttl) s =
    turn-Kept (some user) (some pass) (some server) port s
handle-Kept a (on_publisher_ready publisher) s = all_same s
handle-Kept a (on_request_offer from) s = all_same s
handle-Kept a (on_error error) s = all_same s

Kept-trans : (s t u : Session) → Kept s t → Kept t u → Kept s u
Kept-trans s t u (a, b, c, d, e, f, g, h, i, k, l) (a', b', c', d', e', f', g', h', i', k', l') =
    (a' ∙ a, b' ∙ b, c' ∙ c, d' ∙ d, e' ∙ e, f' ∙ f, g' ∙ g, h' ∙ h, i' ∙ i, k' ∙ k, l' ∙ l)

pub handle_all-Kept :
    (answers : ℕ → Answers) (i : ℕ) (cs : List SigCall) (s : Session)
    → Kept s (handle_all answers i cs s).0
unfolding handle_all
handle_all-Kept answers i [] s = all_same s
handle_all-Kept answers i (c ∷ cs) s =
    let s' = (handle (answers i) c s).0 in
    Kept-trans s s' (handle_all answers (i + 1) cs s').0 (handle-Kept (answers i) c s)
      (handle_all-Kept answers (i + 1) cs s')

-- Whatever the signaling server sends, and however the connection to it ends, the session keeps its
-- number of slots, its role, its data channels and the number of the next one, the numbers of its next video
-- frame, audio frame and message, its cached keyframe and what has come in from its peers; it runs, and its
-- engine is started, just if this was so before.
pub hear-Kept :
    (answers : ℕ → Answers) (rs : List Reading) (s : Session) → Kept s (hear answers rs s).0
hear-Kept answers rs s = handle_all-Kept answers 0 (sse_thread_func session_sig_callbacks rs) s
