-- ===== src/Tests/Sessions.antt =====
-- A session of two peers at concrete inputs: sending, data channels, peers that come and go.
use libp2pchannel.Prelude.{ℕ, ◌≡◌, refl, ◌≢◌, true, false, none, some, List, [], ◌∷◌, arith}
use libp2pchannel.Prelude.Text.{codes, snprintf_s, bytes_eq}
use libp2pchannel.Adapter.{publisher, quic_connected}
use libp2pchannel.FrameQueue.{empty_queue}
use libp2pchannel.FrameQueue
use libp2pchannel.FrameQueue.Inv.{empty_queue-IsValid}
use libp2pchannel.FrameQueue.Refine.{contents}
use libp2pchannel.Peer.{Peer, fresh_peer}
use libp2pchannel.Peer.Send.{flush_send_queue}
use libp2pchannel.Engine.{Engine, peer_at, fresh_peers}
use libp2pchannel.Engine.Peers.{is_free, find_free, find_peer, add_at, add_peer, remove_peer}
use libp2pchannel.Session.{
  cached, Session, SessionError, send_ice_offer, send_gathering_done, set_remote_description,
}
use libp2pchannel.Session.Media.{World, VideoFrame, video_send, video_out}
use libp2pchannel.Session.Media.Laws.{after_send, video_send_lem}
use libp2pchannel.Session.Channels.{
  ChannelConfig, find_channel, free_channel, data_open, data_close, data_send,
}
use libp2pchannel.Session.Channels
use libp2pchannel.Session.Channels.Laws.{data_open-IsValid}
use libp2pchannel.Session.Channels.Use.{
  Delivered, IsReachable, data_send-data_open, data_send-data_close,
}
use libp2pchannel.Session.Signals.{
  Creation, internal_on_quic_connected, internal_on_ice_gathering_done, internal_on_sig_peer_joined,
  internal_on_sig_peer_left, internal_on_sig_ice_answer,
}
use libp2pchannel.Session.Signals.Laws.{offer_once, rejoined_answer, peer_left-peer_joined}
use libp2pchannel.Session.Signals.Cached.{cached_entry, cached_keyframe_lost, channel_outlives_peer}
use libp2pchannel.Session.Create.{SessionConfig, new_session}
use libp2pchannel.Session.Create.Laws.{new_session-Created}
use libp2pchannel.Tests.Slots.{engine}

-- The peer `a` of slot 0 is connected with agent 5 and media session 7, and has no subscription.
abbrev pub peer_a : Peer
peer_a = record (fresh_peer 0) {
  state = quic_connected;
  ice_agent = some 5;
  moq_session = some 7;
  peer_id = b'a' ∷ [];
}

abbrev name_a : List ℕ
name_a = b'a' ∷ []

abbrev name_b : List ℕ
name_b = b'b' ∷ []

abbrev pub config : SessionConfig
config = record {
  config_role = publisher;
  config_url = some (codes "h:1");
  config_token = none;
  config_room = some (codes "r");
  config_peer = some (codes "p");
  config_stun = none;
  config_turn = none;
  config_turn_username = none;
  config_turn_password = none;
  config_enable_tcp = false;
}

abbrev pub created : Session
created = new_session 0 config (codes "h:1") (codes "r") (codes "p")

-- A session that runs with the peer `a` and has a keyframe of two bytes cached.
abbrev pub live : Session
live = record created {
  session_running = true;
  engine_started = true;
  idr_cache = cached (1 ∷ 2 ∷ []);
  engine = record engine { peers = peer_a ∷ fresh_peers 1 9; peer_count = 1 };
}

abbrev pub world : World
world = record {
  now = 90;
  allocated = λ i. true;
  cache_allocated = true;
  requested = λ i. true;
  written = λ i. true;
}

abbrev picture : VideoFrame
picture = record { bytes = some (3 ∷ []); timestamp_us = 80; is_keyframe = true }

video_send_lem_example :
    let (s', e) = video_send world picture live in
    (e ≡ SessionError.ok)
    × FrameQueue.Inv.IsValid (peer_at s'.engine 0).frame_queue
    × (contents (peer_at s'.engine 0).frame_queue
        ≡ after_send world (video_out (3 ∷ []) picture live) peer_a)
    × (s'.video_seq ≡ 1)
    × (s'.idr_cache ≡ cached (3 ∷ []))
unfolding new_session fresh_peer
video_send_lem_example =
    video_send_lem world 3 [] picture live 0 refl (λ e. cc) (omega arith) empty_queue-IsValid

live-IsValid : Channels.Laws.IsValid live
unfolding new_session
live-IsValid =
    let v = (new_session-Created 0 config (codes "h:1") (codes "r") (codes "p")).channels_valid in
    record { given = v.given; unique = v.unique }

abbrev chat : ChannelConfig
chat = record { label = none; reliability = 0 }

data_open-IsValid_example : Channels.Laws.IsValid (data_open name_a chat live).0
data_open-IsValid_example = data_open-IsValid name_a chat live-IsValid

abbrev chatting : Session
chatting = (data_open name_a chat live).0

reachable : IsReachable world 0 live.engine
unfolding fresh_peer new_session fresh_peers
reachable = record {
  in_range = omega arith;
  slots = refl;
  queue_valid = empty_queue-IsValid;
  ready = refl;
  memory = refl;
}

found_a : find_peer 0 name_a live.engine.peers ≡ some 0
unfolding find_peer fresh_peer bytes_eq new_session
found_a = refl

first_channel : (data_open name_a chat live).1 ≡ some 1
unfolding data_open find_peer fresh_peer bytes_eq new_session free_channel
first_channel = refl

data_send-data_open_example :
    let (s', e) = data_send world 1 (4 ∷ []) chatting in
    Delivered world 0 (4 ∷ []) 0 live.engine s' × (e ≡ SessionError.ok)
unfolding fresh_peer new_session
data_send-data_open_example =
    data_send-data_open world name_a chat 1 0 4 [] live live-IsValid found_a refl first_channel
      reachable refl (omega arith)

open_running : chatting.session_running ≡ true
unfolding data_open find_peer fresh_peer bytes_eq new_session free_channel
open_running = refl

data_send-data_close_run :
    (data_send world 1 (4 ∷ []) (data_close 1 chatting)).1 ≡ SessionError.invalid_param
data_send-data_close_run =
    data_send-data_close world 1 4 [] chatting (data_open-IsValid name_a chat live-IsValid)
      open_running

-- What libjuice answers when a peer is added: agent 8.
abbrev creation : Creation
creation = record { agent = some 8; allocated = true; created_us = 60 }

added_b : (add_peer name_b (some 8) true 60 live.engine).1 ≡ some 1
unfolding add_peer find_free add_at fresh_peer new_session fresh_peers
added_b = refl

offer_once_example :
    let (s1, ns1) = internal_on_sig_peer_joined 70 creation name_b live in
    let (s2, ns2) = internal_on_ice_gathering_done 80 (some (codes "v")) 1 s1 in
    let (s3, ns3) = internal_on_ice_gathering_done 90 none 1 s2 in
    (ns2
      ≡ send_ice_offer (snprintf_s 64 name_b) (codes "v")
        ∷ send_gathering_done (snprintf_s 64 name_b)
        ∷ [])
    × (ns3 ≡ send_gathering_done (snprintf_s 64 name_b) ∷ [])
unfolding new_session
offer_once_example = offer_once 70 80 90 8 1 creation name_b (codes "v") none live refl refl added_b

added_again : (add_peer name_a (some 8) true 60 live.engine).1 ≡ some 1
unfolding add_peer find_free add_at fresh_peer new_session fresh_peers
added_again = refl

rejoined_answer_run :
    let s' = (internal_on_sig_peer_joined 70 creation name_a live).0 in
    (s'.engine.peer_count ≡ 2)
    × (internal_on_sig_ice_answer name_a (codes "v") s' ≡ set_remote_description 5 (codes "v") ∷ [])
unfolding new_session fresh_peer
rejoined_answer_run =
    rejoined_answer 70 8 5 1 0 creation name_a (codes "v") live refl refl added_again found_a
      (omega arith) refl

absent_b : find_peer 0 name_b live.engine.peers ≡ none
unfolding find_peer fresh_peer bytes_eq new_session fresh_peers
absent_b = refl

peer_left-peer_joined_run :
    let s' =
      (internal_on_sig_peer_left name_b
        (internal_on_sig_peer_joined 70 creation name_b live).0).0 in
    (s'.engine.peer_count ≡ 1)
    × (is_free (peer_at s'.engine 1) ≡ true)
    × ((j : ℕ) → 1 ≢ j → peer_at s'.engine j ≡ peer_at live.engine j)
unfolding new_session fresh_peer fresh_peers
peer_left-peer_joined_run =
    peer_left-peer_joined 70 8 1 creation name_b live refl refl added_b refl refl (omega arith)
      absent_b

cached_keyframe_lost_run :
    let s' = (internal_on_quic_connected world 0 live).0 in
    let (p', es) = flush_send_queue (λ e. true) (peer_at s'.engine 0) in
    (contents (peer_at s'.engine 0).frame_queue ≡ cached_entry world (1 ∷ 2 ∷ []) live ∷ [])
    × (es ≡ [])
    × (contents p'.frame_queue ≡ [])
unfolding new_session fresh_peer empty_queue
cached_keyframe_lost_run =
    cached_keyframe_lost world 0 1 7 0 (2 ∷ []) live refl refl (omega arith) refl refl
      empty_queue-IsValid refl refl refl

-- The session with channel 1 to slot 0.
abbrev with_channel : Session
with_channel = record live {
  data_channels =
      record { active = true; id = 1; peer_index = 0; reliability = 0; label = [] } ∷ [];
}

added_after :
    (add_peer name_b (some 8) true 60 (internal_on_sig_peer_left name_a with_channel).0.engine).1
    ≡ some 0
unfolding add_peer find_free add_at fresh_peer new_session internal_on_sig_peer_left find_peer
    bytes_eq remove_peer
added_after = refl

still_found : find_channel 0 1 with_channel.data_channels ≡ some 0
unfolding find_channel
still_found = refl

-- The engine once `b` is connected in slot 0.
abbrev later : Engine
later = record live.engine {
  peers = record peer_a { peer_id = name_b; ice_agent = some 8 } ∷ fresh_peers 1 9;
}

later-IsReachable : IsReachable world 0 later
unfolding fresh_peer new_session fresh_peers
later-IsReachable = record {
  in_range = omega arith;
  slots = refl;
  queue_valid = empty_queue-IsValid;
  ready = refl;
  memory = refl;
}

b_named :
    ◌≡◌ {A = List ℕ} name_b
      (peer_at
        (internal_on_sig_peer_joined 70 creation name_b
          (internal_on_sig_peer_left name_a with_channel).0).0.engine
        0).peer_id
unfolding internal_on_sig_peer_joined add_peer find_free add_at fresh_peer new_session
    internal_on_sig_peer_left find_peer bytes_eq remove_peer snprintf_s
b_named = refl

channel_outlives_peer_example :
    let s1 = (internal_on_sig_peer_left name_a with_channel).0 in
    let s2 = (internal_on_sig_peer_joined 70 creation name_b s1).0 in
    let s3 : Session = record s2 { engine = later } in
    let (s', e) = data_send world 1 (4 ∷ []) s3 in
    (◌≡◌ {A = List ℕ} name_b (snprintf_s 64 name_b))
    × Delivered world 0 (4 ∷ []) s3.data_seq later s'
    × (e ≡ SessionError.ok)
unfolding new_session
channel_outlives_peer_example =
    channel_outlives_peer world 70 8 1 0 0 4 [] creation name_a name_b with_channel later refl refl
      (omega arith) later-IsReachable refl found_a still_found refl added_after b_named
