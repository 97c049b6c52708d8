-- ===== src/Publisher/Signals.antt =====
-- The callbacks that the publisher of src/p2p/src/p2p_publisher.c gives to its engine, for the peer of slot
-- `i`, and to the signaling client.
use libp2pchannel.Prelude.{
  ℕ, ◌%◌, ◌^◌, Option, none, some, List, [], ◌∷◌, ◌++◌, ltb, if◌then◌else◌, length, pos,
}
use libp2pchannel.Adapter.FrameType
use libp2pchannel.Peer.{Effect}
use libp2pchannel.Peer.Send.{send_data_via_quic}
use libp2pchannel.Engine.{Engine, peer_at, set_peer}
use libp2pchannel.Engine.Peers.{add_peer, find_peer, remove_peer}
use libp2pchannel.Session.{
  Notice, notices_of, send_create_room, send_ice_offer, send_ice_candidate, send_gathering_done,
  gather_candidates, set_remote_description, add_remote_candidate, set_remote_gathering_done,
}
use libp2pchannel.Session.Signals.{Creation, on_agent, description_of}
use libp2pchannel.Session.Media.{World}
use libp2pchannel.Publisher.{Publisher}

-- `pub_on_ice_candidate`, for the peer of slot `i`
unfoldable pub pub_on_ice_candidate : ℕ → List ℕ → Publisher → List Notice
pub_on_ice_candidate i sdp p = send_ice_candidate (peer_at p.engine i).peer_id sdp ∷ []

-- `pub_on_ice_gathering_done`
unfoldable pub pub_on_ice_gathering_done : ℕ → Publisher → List Notice
pub_on_ice_gathering_done i p = send_gathering_done (peer_at p.engine i).peer_id ∷ []

-- `pub_on_quic_connected`; the cached keyframe goes out with the number 0.
unfoldable pub pub_on_quic_connected : World → ℕ → Publisher → Publisher
pub_on_quic_connected w i p =
    let peer = peer_at p.engine i in
    let (peer', wakeup, st) =
      send_data_via_quic p.engine.host w.now FrameType.video 1 0 w.now p.idr_cache
        (length p.idr_cache % 2 ^ 32) (w.allocated peer.index) peer p.engine.next_wakeup_us in
    if ltb 0 (length p.idr_cache)
    then record p { engine = record (set_peer p.engine i peer') { next_wakeup_us = wakeup } }
    else p

-- `pub_sig_connected`
unfoldable pub pub_sig_connected : Publisher → List Notice
pub_sig_connected p = send_create_room p.room_id ∷ []

-- The text in `sdp` after `p2p_peer_get_local_description`, whose result is not looked at; `stack` is what
-- the array holds before.
abbrev pub sdp_or : List ℕ → Option (List ℕ) → List ℕ
sdp_or stack none = stack
sdp_or stack (some sdp) = sdp

-- `pub_sig_peer_joined` after `p2p_engine_add_peer`
abbrev pub pub_joined :
    Option (List ℕ)
    → List ℕ
    → List ℕ
    → Engine × Option ℕ × List Effect
    → Publisher
    → Publisher × List Notice
pub_joined local stack pid (eng, none, es) p = (record p { engine = eng }, notices_of es)
pub_joined local stack pid (eng, some i, es) p =
    let peer = peer_at eng i in
    (
      record p { engine = eng },
      notices_of es
          ++ (send_ice_offer pid (sdp_or stack (description_of local peer))
              ∷ on_agent peer gather_candidates),
    )

-- `pub_sig_peer_joined`; `local` is libjuice's local description.
unfoldable pub pub_sig_peer_joined :
    Creation → Option (List ℕ) → List ℕ → List ℕ → Publisher → Publisher × List Notice
pub_sig_peer_joined c local stack pid p =
    pub_joined local stack pid (add_peer pid c.agent c.allocated c.created_us p.engine) p

-- `pub_sig_peer_left`
unfoldable pub pub_sig_peer_left : List ℕ → Publisher → Publisher × List Notice
pub_sig_peer_left pid p = elim (find_peer 0 pid p.engine.peers) [
  | none ↦ (p, [])
  | some i ↦
      let (eng, es) = remove_peer (pos (peer_at p.engine i).index) p.engine in
      (record p { engine = eng }, notices_of es)
]

-- A call on the agent of the named peer, if there is one.
unfoldable pub named_agent : List ℕ → (ℕ → Notice) → Engine → List Notice
named_agent from call eng = elim (find_peer 0 from eng.peers) [
  | none ↦ []
  | some i ↦ on_agent (peer_at eng i) call
]

-- `pub_sig_ice_answer`, `pub_sig_ice_candidate` and `pub_sig_gathering_done`
unfoldable pub pub_sig_ice_answer : List ℕ → List ℕ → Publisher → List Notice
unfolding named_agent
pub_sig_ice_answer from sdp p = named_agent from (λ a. set_remote_description a sdp) p.engine

unfoldable pub pub_sig_ice_candidate : List ℕ → List ℕ → Publisher → List Notice
unfolding named_agent
pub_sig_ice_candidate from candidate p =
    named_agent from (λ a. add_remote_candidate a candidate) p.engine

unfoldable pub pub_sig_gathering_done : List ℕ → Publisher → List Notice
unfolding named_agent
pub_sig_gathering_done from p = named_agent from set_remote_gathering_done p.engine
