-- ===== src/Publisher.antt =====
-- The publisher of src/p2p/src/p2p_publisher.c and its header: an engine, a signaling client, the cache of
-- the last keyframe, and the callbacks that it gives to both. A publisher pointer is not NULL here. Calls
-- of the signaling client and of libjuice are told as those of a session are; the functions that only
-- log, for the state of ICE, the loss of a connection and a created room, have no model.
pub mod Signals
pub mod Media
pub mod Sends
pub mod Laws
use libp2pchannel.Prelude.{ℕ, Bool, true, false, not, Option, none, some, List, [], if◌then◌else◌}
use libp2pchannel.Prelude.Text.{codes, snprintf_s}
use libp2pchannel.Prelude.Ledger.{Act}
use libp2pchannel.Adapter.{publisher}
use libp2pchannel.Adapter.FrameType
use libp2pchannel.PacketQueue.{Status, success, failure}
use libp2pchannel.Peer.{Callbacks, Effect}
use libp2pchannel.Engine.{Engine}
use libp2pchannel.Engine.Life.{EngineConfig, engine_init, engine_start, engine_stop, engine_destroy}
use libp2pchannel.Signaling.Dispatch.{SigCallbacks}
use libp2pchannel.Signaling.Connect.{Online, Resource, idle_queue, p2p_signaling_disconnect}
use libp2pchannel.Session.Create.{no_engine_callbacks}

-- `P2P_PUB_MAX_IDR_CACHE_SIZE`
abbrev pub max_idr_cache_size : ℕ
max_idr_cache_size = 524288

-- `p2p_publisher_config_t`, less the address and the name for the signaling client, which nothing reads,
-- and the certificate files.
pub record PublisherConfig : Type 0 where
  pub room_id : Option (List ℕ)
  pub stun_host : Option (List ℕ)
  pub stun_port : ℕ
  pub turn_host : Option (List ℕ)
  pub turn_port : ℕ
  pub turn_username : Option (List ℕ)
  pub turn_password : Option (List ℕ)

-- `p2p_publisher_t`; `idr_cache` is the first `idr_cache_size` bytes of the cache.
pub record Publisher : Type 0 where
  pub engine : Engine
  pub signaling : Online
  pub room_id : List ℕ
  pub idr_cache : List ℕ
  pub idr_timestamp_us : ℕ
  pub running : Bool

-- The callbacks in the publisher's `p2p_engine_config_t`.
abbrev pub publisher_callbacks : Callbacks
publisher_callbacks = record no_engine_callbacks {
  ice_state = true;
  ice_candidate = true;
  ice_gathering_done = true;
  quic_connected = true;
  quic_closed = true;
}

abbrev pub publisher_engine_config : PublisherConfig → EngineConfig
publisher_engine_config cfg = record {
  role = publisher;
  callbacks = publisher_callbacks;
  stun_server_host = cfg.stun_host;
  stun_server_port = cfg.stun_port;
  turn_server_host = cfg.turn_host;
  turn_server_port = cfg.turn_port;
  turn_username = cfg.turn_username;
  turn_password = cfg.turn_password;
  enable_tcp = false;
}

abbrev pub no_sig_callbacks : SigCallbacks
no_sig_callbacks = record {
  connected = false;
  disconnected = false;
  room_created = false;
  peer_joined = false;
  peer_left = false;
  ice_offer = false;
  ice_answer = false;
  ice_candidate = false;
  gathering_done = false;
  turn_credentials = false;
  publisher_ready = false;
  request_offer = false;
  error = false;
}

-- The zeroed signaling client.
abbrev pub zero_online : Online
zero_online = record {
  client = record {
    own_id = [];
    auth = [];
    room = [];
    sig_callbacks = no_sig_callbacks;
    is_connected = false;
    post_queue = idle_queue;
  };
  server_host = [];
  server_port = 0;
  has_ctx = false;
  has_ctx_sse = false;
  has_post = false;
  has_sse = false;
  running = false;
}

abbrev pub room_or_default : Option (List ℕ) → List ℕ
room_or_default none = snprintf_s 64 (codes "default")
room_or_default (some room) = snprintf_s 64 room

abbrev pub publisher_of : PublisherConfig → Option Engine → Option Publisher
publisher_of cfg none = none
publisher_of cfg (some eng) = some (record {
  engine = eng;
  signaling = zero_online;
  room_id = room_or_default cfg.room_id;
  idr_cache = [];
  idr_timestamp_us = 0;
  running = false;
})

-- `p2p_publisher_init`: is there memory for the cache and for the packets, and does xquic give an engine?
-- `none` is -1; what the failed call leaves behind is not modelled.
unfoldable pub p2p_publisher_init : PublisherConfig → Bool → Bool → Bool → Option Publisher
p2p_publisher_init cfg cache memory xquic =
    if not cache
    then none
    else publisher_of cfg (engine_init (publisher_engine_config cfg) memory xquic)

abbrev pub publisher_started : Engine × Status → Publisher → Publisher × Bool
publisher_started (eng, failure) p = (record p { engine = eng }, false)
publisher_started (eng, success) p = (record p { engine = eng; running = true }, true)

-- `p2p_publisher_start`; `thread` says whether the engine's thread is created. The configuration that it
-- prepares for the signaling client is given to nobody.
unfoldable pub p2p_publisher_start : Bool → Publisher → Publisher × Bool
p2p_publisher_start thread p = publisher_started (engine_start thread p.engine) p

-- `p2p_publisher_stop`, with what the signaling client closes
unfoldable pub p2p_publisher_stop : Publisher → Publisher × List (Act Resource)
p2p_publisher_stop p =
    let (gone, acts) = p2p_signaling_disconnect p.signaling in
    (record p { running = false; signaling = gone; engine = engine_stop p.engine }, acts)

-- `p2p_publisher_destroy`
unfoldable pub p2p_publisher_destroy : Publisher → Publisher × List Effect
p2p_publisher_destroy p =
    let (gone, es) = engine_destroy p.engine in (record p { engine = gone; idr_cache = [] }, es)

-- `p2p_publisher_get_subscriber_count`
abbrev pub p2p_publisher_get_subscriber_count : Publisher → ℕ
p2p_publisher_get_subscriber_count p = p.engine.peer_count
