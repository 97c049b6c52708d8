-- ===== src/Subscriber.antt =====
-- The subscriber of src/p2p/src/p2p_subscriber.c and its header: an engine, a signaling client, and the
-- callbacks that it gives to both. A subscriber pointer is not NULL here. The functions that only log, for
-- the state of ICE, the connections of QUIC and the loss of the server, have no model.
pub mod Laws
use libp2pchannel.Prelude.{
  ℕ, zero, suc, ◌+◌, ◌-◌, ◌*◌, ◌/◌, ◌%◌, ◌^◌, ◌≤◌, ◌<◌, min, ◌≡◌, refl, sym, ap, ap₂, subst, ◌∙◌,
  ◌≡⟨◌⟩◌, ◌∎, ◌≢◌, ◌↔◌, ◌⊎◌, inl, inr, Bool, true, false, not, ◌&&◌, ◌||◌, Option, none, some, List,
  [], ◌∷◌, ◌++◌, map, append_assoc, append-nil, arith, dec_lt, dec_le, ℕ_discrete, ltb, leb, ◌==◌,
  if◌then◌else◌, ltb→lt, lt→ltb, ge→ltb, eq→==, ne→==, ==_iff, Bool-cases, Option-cases, length,
  get_elem?, get_or, set, take, drop, replicate, memcpy, length-append, length-set,
  length-replicate, length-take, length-drop, take-length, take-take-append, get_or-set_self,
  get_or-set_ne, ℤ, pos, negsuc, to_int64, to_uint64, is_negative, List-cases,
}
use libp2pchannel.Prelude.Text.{snprintf_s}
use libp2pchannel.Prelude.Ledger.{Act}
use libp2pchannel.Adapter.{subscriber}
use libp2pchannel.PacketQueue.{Status, success, failure}
use libp2pchannel.Peer.{Callbacks, Effect}
use libp2pchannel.Engine.{Engine, peer_at}
use libp2pchannel.Engine.Peers.{add_peer, find_peer}
use libp2pchannel.Engine.Life.{EngineConfig, engine_init, engine_start, engine_stop, engine_destroy}
use libp2pchannel.Signaling.Connect.{Online, Resource, p2p_signaling_disconnect}
use libp2pchannel.Session.{
  Notice, notices_of, send_join_room, send_ice_answer, send_ice_candidate, send_gathering_done,
  gather_candidates, set_remote_description, add_remote_candidate, set_remote_gathering_done,
}
use libp2pchannel.Session.Create.{no_engine_callbacks}
use libp2pchannel.Session.Signals.{Creation, on_agent, description_of}
use libp2pchannel.Publisher.{zero_online, room_or_default}
use libp2pchannel.Publisher.Signals.{named_agent, sdp_or}

-- `p2p_subscriber_config_t`, less the address and the name for the signaling client, which nothing reads.
-- A callback is whether it is set.
pub record SubscriberConfig : Type 0 where
  pub room_id : Option (List ℕ)
  pub stun_host : Option (List ℕ)
  pub stun_port : ℕ
  pub turn_host : Option (List ℕ)
  pub turn_port : ℕ
  pub turn_username : Option (List ℕ)
  pub turn_password : Option (List ℕ)
  pub on_video : Bool
  pub on_audio : Bool

-- `p2p_subscriber_t`
pub record Subscriber : Type 0 where
  pub engine : Engine
  pub signaling : Online
  pub room_id : List ℕ
  pub publisher_peer_id : List ℕ
  pub has_on_video : Bool
  pub has_on_audio : Bool
  pub running : Bool

-- `sub_on_ice_candidate`
unfoldable pub sub_on_ice_candidate : List ℕ → Subscriber → List Notice
sub_on_ice_candidate sdp s = send_ice_candidate s.publisher_peer_id sdp ∷ []

-- `sub_on_ice_gathering_done`
unfoldable pub sub_on_ice_gathering_done : Subscriber → List Notice
sub_on_ice_gathering_done s = send_gathering_done s.publisher_peer_id ∷ []

-- `sub_sig_connected`
unfoldable pub sub_sig_connected : Subscriber → List Notice
sub_sig_connected s = send_join_room s.room_id ∷ []

-- The slot of the publisher, which is added where there is none.
unfoldable pub publisher_slot : Creation → List ℕ → Engine → Engine × Option ℕ × List Effect
publisher_slot c from eng = elim (find_peer 0 from eng.peers) [
  | none ↦ add_peer from c.agent c.allocated c.created_us eng
  | some i ↦ (eng, some i, [])
]

-- `sub_sig_ice_offer` once it has the slot; `stack` is what the array `answer` holds before.
abbrev pub answered :
    Option (List ℕ)
    → List ℕ
    → List ℕ
    → List ℕ
    → Engine × Option ℕ × List Effect
    → Subscriber
    → Subscriber × List Notice
answered local stack from sdp (eng, none, es) s = (record s { engine = eng }, notices_of es)
answered local stack from sdp (eng, some i, es) s =
    let p = peer_at eng i in
    (
      record s { engine = eng },
      notices_of es
          ++ (on_agent p (λ a. set_remote_description a sdp)
              ++ (send_ice_answer from (sdp_or stack (description_of local p))
                  ∷ on_agent p gather_candidates)),
    )

-- `sub_sig_ice_offer`
unfoldable pub sub_sig_ice_offer :
    Creation → Option (List ℕ) → List ℕ → List ℕ → List ℕ → Subscriber → Subscriber × List Notice
unfolding publisher_slot
sub_sig_ice_offer c local stack from sdp s =
    answered local stack from sdp (publisher_slot c from s.engine)
      (record s { publisher_peer_id = snprintf_s 64 from })

-- `sub_sig_ice_candidate` and `sub_sig_gathering_done`
unfoldable pub sub_sig_ice_candidate : List ℕ → List ℕ → Subscriber → List Notice
unfolding named_agent
sub_sig_ice_candidate from candidate s =
    named_agent from (λ a. add_remote_candidate a candidate) s.engine

unfoldable pub sub_sig_gathering_done : List ℕ → Subscriber → List Notice
unfolding named_agent
sub_sig_gathering_done from s = named_agent from set_remote_gathering_done s.engine

-- `sub_sig_turn_creds`
unfoldable pub sub_sig_turn_creds : List ℕ → List ℕ → List ℕ → ℕ → Subscriber → Subscriber
sub_sig_turn_creds username password server port s = record s {
  engine = record s.engine {
    turn_host = snprintf_s 256 server;
    turn_port = port;
    turn_username = snprintf_s 128 username;
    turn_password = snprintf_s 128 password;
  };
}

-- The callbacks in the subscriber's `p2p_engine_config_t`.
abbrev pub subscriber_callbacks : Callbacks
subscriber_callbacks = record no_engine_callbacks {
  ice_state = true;
  ice_candidate = true;
  ice_gathering_done = true;
  quic_connected = true;
  quic_closed = true;
}

abbrev pub subscriber_engine_config : SubscriberConfig → EngineConfig
subscriber_engine_config cfg = record {
  role = subscriber;
  callbacks = subscriber_callbacks;
  stun_server_host = cfg.stun_host;
  stun_server_port = cfg.stun_port;
  turn_server_host = cfg.turn_host;
  turn_server_port = cfg.turn_port;
  turn_username = cfg.turn_username;
  turn_password = cfg.turn_password;
  enable_tcp = false;
}

abbrev pub subscriber_of : SubscriberConfig → Option Engine → Option Subscriber
subscriber_of cfg none = none
subscriber_of cfg (some eng) = some (record {
  engine = eng;
  signaling = zero_online;
  room_id = room_or_default cfg.room_id;
  publisher_peer_id = [];
  has_on_video = cfg.on_video;
  has_on_audio = cfg.on_audio;
  running = false;
})

-- `p2p_subscriber_init`; `none` is -1.
unfoldable pub p2p_subscriber_init : SubscriberConfig → Bool → Bool → Option Subscriber
p2p_subscriber_init cfg memory xquic =
    subscriber_of cfg (engine_init (subscriber_engine_config cfg) memory xquic)

abbrev pub subscriber_started : Engine × Status → Subscriber → Subscriber × Bool
subscriber_started (eng, failure) s = (record s { engine = eng }, false)
subscriber_started (eng, success) s = (record s { engine = eng; running = true }, true)

-- `p2p_subscriber_start`
unfoldable pub p2p_subscriber_start : Bool → Subscriber → Subscriber × Bool
p2p_subscriber_start thread s = subscriber_started (engine_start thread s.engine) s

-- `p2p_subscriber_stop`, with what the signaling client closes
unfoldable pub p2p_subscriber_stop : Subscriber → Subscriber × List (Act Resource)
p2p_subscriber_stop s =
    let (gone, acts) = p2p_signaling_disconnect s.signaling in
    (record s { running = false; signaling = gone; engine = engine_stop s.engine }, acts)

-- `p2p_subscriber_destroy`
unfoldable pub p2p_subscriber_destroy : Subscriber → Subscriber × List Effect
p2p_subscriber_destroy s =
    let (gone, es) = engine_destroy s.engine in (record s { engine = gone }, es)
