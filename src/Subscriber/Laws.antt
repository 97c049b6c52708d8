-- ===== src/Subscriber/Laws.antt =====
-- The exchange of the subscriber of src/p2p/src/p2p_subscriber.c with its publisher, and what it hears.
use libp2pchannel.Prelude.{
  ℕ, ◌≡◌, refl, ap, ◌∙◌, Bool, false, Option, none, some, List, [], ◌∷◌, arith, get_or-set_self,
}
use libp2pchannel.Prelude.Text.{snprintf_s}
use libp2pchannel.PacketQueue.{Status, success, failure}
use libp2pchannel.Peer.{Host, Peer, fresh_peer}
use libp2pchannel.Engine.Life.Laws.{engine_init-host}
use libp2pchannel.Peer.Moq.{MediaFrame, on_video, on_audio, on_datachannel_msg, on_request_keyframe}
use libp2pchannel.Engine.{Engine}
use libp2pchannel.Engine.Peers.{find_peer, add_peer}
use libp2pchannel.Engine.Peers.Laws.{
  added_slot, added_engine, add_peer-some, add_peer_all, slot_found,
}
use libp2pchannel.Engine.Life.{engine_init, engine_start}
use libp2pchannel.Session.{
  send_ice_answer, send_ice_candidate, send_gathering_done, gather_candidates,
  set_remote_description,
}
use libp2pchannel.Session.Signals.{Creation}
use libp2pchannel.Publisher.Signals.{sdp_or}
use libp2pchannel.Subscriber.{
  SubscriberConfig, Subscriber, subscriber_of, subscriber_engine_config, sub_sig_ice_offer,
  sub_on_ice_candidate, sub_on_ice_gathering_done, publisher_slot, subscriber_started,
  p2p_subscriber_init, p2p_subscriber_start,
}

slot_new :
    (c : Creation) (from : List ℕ) (eng : Engine)
    → find_peer 0 from eng.peers ≡ none
    → publisher_slot c from eng ≡ add_peer from c.agent c.allocated c.created_us eng
unfolding publisher_slot
slot_new c from eng f = rw (publisher_slot, f) refl

-- The first offer of a publisher, whose name no slot has yet, and for whom the engine has a slot and
-- libjuice an agent: its description is
-- set, the local one is answered, or what was on the stack if libjuice has none, and gathering starts; the
-- candidates and the end of the gathering are then sent to the publisher by its name, cut to 63 bytes.
pub sub_sig_ice_offer-first :
    (c : Creation) (agent i : ℕ) (local : Option (List ℕ)) (stack from sdp candidate : List ℕ)
    (s : Subscriber)
    → find_peer 0 from s.engine.peers ≡ none
    → c.agent ≡ some agent
    → (add_peer from c.agent c.allocated c.created_us s.engine).1 ≡ some i
    → let (s', ns) = sub_sig_ice_offer c local stack from sdp s in
      (ns
        ≡ set_remote_description agent sdp
          ∷ send_ice_answer from (sdp_or stack local)
          ∷ gather_candidates agent
          ∷ [])
      × (s'.engine ≡ added_engine i from agent c.created_us s.engine)
      × (sub_on_ice_candidate candidate s' ≡ send_ice_candidate (snprintf_s 64 from) candidate ∷ [])
      × (sub_on_ice_gathering_done s' ≡ send_gathering_done (snprintf_s 64 from) ∷ [])
unfolding sub_sig_ice_offer sub_on_ice_candidate sub_on_ice_gathering_done
sub_sig_ice_offer-first c agent i local stack from sdp candidate s f a e =
    let e' : (add_peer from (some agent) c.allocated c.created_us s.engine).1 ≡ some i =
      rw a at e in
    let (few, found, is) = add_peer-some from agent c.allocated c.created_us i s.engine e' in
    let (h, free) = slot_found i s.engine found in
    let slot = added_slot i from agent c.created_us s.engine in
    rw
      (
        slot_new c from s.engine f,
        a,
        add_peer_all from agent c.allocated c.created_us i s.engine e',
        get_or-set_self s.engine.peers i slot (fresh_peer i) h,
      )
      (refl, refl, refl, refl)

subscriber_of-host :
    (cfg : SubscriberConfig) (memory xquic : Bool) (made : Option Engine) (s : Subscriber)
    → engine_init (subscriber_engine_config cfg) memory xquic ≡ made
    → subscriber_of cfg made ≡ some s
    → s.engine.host.callbacks.data_recv ≡ false
subscriber_of-host cfg memory xquic none s e h = cc
subscriber_of-host cfg memory xquic (some eng) s e h =
    let host = engine_init-host (subscriber_engine_config cfg) memory xquic eng e in
    let same : s.engine ≡ eng = ground (arith, h) in
    ap (λ (g : Engine). g.host.callbacks.data_recv) same
    ∙ ap (λ (k : Host). k.callbacks.data_recv) host

engine_start-host : (thread : Bool) (eng : Engine) → (engine_start thread eng).0.host ≡ eng.host
unfolding engine_start
engine_start-host thread eng = refl

subscriber_started-host :
    (r : Engine × Status) (s : Subscriber) → (subscriber_started r s).0.engine.host ≡ r.0.host
subscriber_started-host (eng, success) s = refl
subscriber_started-host (eng, failure) s = refl

no_messages :
    (host : Host) (msg : List ℕ) (p : Peer)
    → host.callbacks.data_recv ≡ false
    → on_datachannel_msg host msg p ≡ []
unfolding on_datachannel_msg
no_messages host [] p h = refl
no_messages host (type ∷ []) p h = rw h refl
no_messages host (type ∷ b ∷ payload) p h = rw h refl

-- A subscriber never hears what its publisher sends: the engine of one that was initialised and started
-- makes no callback for a picture, a sound, a message or a keyframe request, whatever callbacks the
-- application gave to the subscriber.
pub p2p_subscriber_init-deaf :
    (cfg : SubscriberConfig) (memory xquic thread : Bool) (s : Subscriber) (id : ℕ) (f : MediaFrame)
    (msg : List ℕ) (p : Peer)
    → p2p_subscriber_init cfg memory xquic ≡ some s
    → let host = (p2p_subscriber_start thread s).0.engine.host in
      ((on_video host id f p).1 ≡ [])
      × ((on_audio host id f p).1 ≡ [])
      × (on_datachannel_msg host msg p ≡ [])
      × (on_request_keyframe host p ≡ [])
unfolding p2p_subscriber_init p2p_subscriber_start on_video on_audio on_request_keyframe
p2p_subscriber_init-deaf cfg memory xquic thread s id f msg p e =
    let host = (p2p_subscriber_start thread s).0.engine.host in
    let same : host ≡ s.engine.host =
      subscriber_started-host (engine_start thread s.engine) s
      ∙ engine_start-host thread s.engine in
    let off : host.callbacks.data_recv ≡ false =
      ap (λ (k : Host). k.callbacks.data_recv) same
      ∙ subscriber_of-host cfg memory xquic _ s refl e in
    (rw off refl, rw off refl, no_messages host msg p off, rw off refl)
