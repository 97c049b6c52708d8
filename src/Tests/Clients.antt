-- ===== src/Tests/Clients.antt =====
-- The signaling client's connection, the publisher and the subscriber at concrete inputs.
use libp2pchannel.Prelude.{◌≡◌, refl, ap, true, false, none, some, [], ◌∷◌, ◌++◌, arith, replicate}
use libp2pchannel.Prelude.Text.{codes, snprintf_s, read_digits, bytes_eq}
use libp2pchannel.Prelude.Decimal.{scan_int}
use libp2pchannel.Peer.{fresh_peer}
use libp2pchannel.Peer.Moq.{MediaFrame, on_video, on_audio, on_datachannel_msg, on_request_keyframe}
use libp2pchannel.Engine.{fresh_peers}
use libp2pchannel.Engine.Peers.{find_free, find_peer, add_at, add_peer}
use libp2pchannel.Engine.Peers.Laws.{added_engine}
use libp2pchannel.Engine.Life.{set_up}
use libp2pchannel.Engine.Life.Laws.{engine_init-some}
use libp2pchannel.Transport.Http.{Connection}
use libp2pchannel.Transport.Context.{
  again, agreed, handshake, p2p_tls_ctx_create, p2p_tls_ctx_destroy, p2p_tls_connect, p2p_tls_close,
}
use libp2pchannel.Transport.Context.Laws.{
  context_parts, connection_parts, parts, p2p_tls_connect-closed,
}
use libp2pchannel.Signaling.Build.{Signal, signal_pieces, candidate_pieces}
use libp2pchannel.Signaling.Build.Laws.{concat}
use libp2pchannel.Signaling.Client.{body_of}
use libp2pchannel.Signaling.Connect.{
  SigConfig, Attempt, Connected, Online, new_client, parse_url, host_part, host_hdr,
  p2p_signaling_connect,
}
use libp2pchannel.Signaling.Connect.Laws.{IsClosed, p2p_signaling_connect-IsClosed}
use libp2pchannel.Signaling.Connect.Requests.{parse_url-host_hdr, posted_over, post_signal-long}
use libp2pchannel.Session.{
  send_ice_answer, send_ice_candidate, send_gathering_done, gather_candidates,
  set_remote_description,
}
use libp2pchannel.Session.Create.{new_session}
use libp2pchannel.Session.Media.{video_send}
use libp2pchannel.Publisher.{Publisher, zero_online}
use libp2pchannel.Publisher.Media.{p2p_publisher_send_video}
use libp2pchannel.Publisher.Sends.{p2p_publisher_send_video-video_send}
use libp2pchannel.Subscriber.{
  SubscriberConfig, Subscriber, subscriber_of, p2p_subscriber_init, p2p_subscriber_start,
  sub_sig_ice_offer, sub_on_ice_candidate, sub_on_ice_gathering_done, subscriber_engine_config,
}
use libp2pchannel.Subscriber.Laws.{sub_sig_ice_offer-first, p2p_subscriber_init-deaf}
use libp2pchannel.Tests.Slots.{engine}
use libp2pchannel.Tests.Sessions.{live, world}
use libp2pchannel.Tests.Transports.{listening}

p2p_tls_connect-closed_example :
    let (made, acts) = p2p_tls_ctx_create true true true in
    let (up, more) = p2p_tls_connect true true true (again ∷ agreed ∷ []) in
    (made ≡ true)
    × (up ≡ true)
    × (parts (acts ++ more) ≡ some (connection_parts true ++ context_parts true))
    × (parts (acts ++ (more ++ (p2p_tls_close up ++ p2p_tls_ctx_destroy made))) ≡ some [])
unfolding p2p_tls_ctx_create p2p_tls_connect handshake
p2p_tls_connect-closed_example =
    p2p_tls_connect-closed true true true true true true (again ∷ agreed ∷ [])

abbrev dialing : SigConfig
dialing = record {
  server_url = some (codes "h:8443");
  peer_id = some (codes "bob");
  token = none;
  callbacks = listening;
}

-- The server does not take the request for the event stream.
abbrev attempt : Attempt
attempt = record {
  ctx_made = true;
  ctx_sse_made = true;
  post_up = true;
  sse_up = true;
  stream = record { answers = []; writes = []; sent = [] };
  worker_starts = true;
  reader_starts = true;
}

dialed : parse_url (codes "h:8443") ≡ some (codes "h", 8443)
unfolding parse_url host_part scan_int read_digits
dialed = refl

p2p_signaling_connect-IsClosed_example :
    (r : Connected) × (p2p_signaling_connect dialing attempt ≡ some r)
    × IsClosed attempt (new_client (codes "h") 8443 (codes "bob") dialing) r
p2p_signaling_connect-IsClosed_example =
    p2p_signaling_connect-IsClosed dialing attempt (codes "h:8443") (codes "bob") (codes "h") 8443
      refl refl dialed

parse_url-host_hdr_example : parse_url (host_hdr (codes "h") 8443) ≡ some (codes "h", 8443)
parse_url-host_hdr_example =
    parse_url-host_hdr b'h' [] 8443 (omega arith, tt) (omega arith) (omega arith)

-- A session description of 2048 bytes.
abbrev long_offer : Signal
long_offer = record {
  type = codes "ice_offer";
  peer_id = codes "bob";
  token = [];
  to_peer = replicate 2048 b'a';
  room_id = [];
  sdp = [];
  candidates = [];
}

abbrev client : Online
client = new_client (codes "h") 8443 (codes "bob") dialing

abbrev open_conn : Connection
open_conn = record { answers = []; writes = []; sent = [] }

post_signal-long_example :
    posted_over client 8192 open_conn (body_of long_offer) ≡ (none, open_conn)
unfolding signal_pieces candidate_pieces concat
post_signal-long_example = post_signal-long client long_offer 8192 open_conn (omega arith)

abbrev publishing : Publisher
publishing = record {
  engine = live.engine;
  signaling = zero_online;
  room_id = codes "r";
  idr_cache = [];
  idr_timestamp_us = 0;
  running = true;
}

p2p_publisher_send_video-video_send_example :
    let (n', p', ok) =
      p2p_publisher_send_video world
        (some (3 ∷ []))
        80
        true
        (record { video_seq = 0; audio_seq = 0 })
        publishing in
    let (s', e) =
      video_send world
        (record { bytes = some (3 ∷ []); timestamp_us = 80; is_keyframe = true })
        live in
    (p'.engine ≡ s'.engine) × (n'.video_seq ≡ s'.video_seq)
unfolding new_session
p2p_publisher_send_video-video_send_example =
    p2p_publisher_send_video-video_send world 3 [] 80 true (record { video_seq = 0; audio_seq = 0 })
      publishing live (omega arith) refl refl refl refl

abbrev watching : Subscriber
watching = record {
  engine = record engine { peers = fresh_peers 0 10; peer_count = 0 };
  signaling = zero_online;
  room_id = codes "r";
  publisher_peer_id = [];
  has_on_video = true;
  has_on_audio = true;
  running = true;
}

sub_sig_ice_offer-first_example :
    let (s', ns) =
      sub_sig_ice_offer
        (record { agent = some 5; allocated = true; created_us = 9 })
        (some (codes "l"))
        []
        (codes "pub")
        (codes "o")
        watching in
    (ns
      ≡ set_remote_description 5 (codes "o")
        ∷ send_ice_answer (codes "pub") (codes "l")
        ∷ gather_candidates 5
        ∷ [])
    × (s'.engine ≡ added_engine 0 (codes "pub") 5 9 watching.engine)
    × (sub_on_ice_candidate (codes "c") s' ≡ send_ice_candidate (codes "pub") (codes "c") ∷ [])
    × (sub_on_ice_gathering_done s' ≡ send_gathering_done (codes "pub") ∷ [])
unfolding fresh_peers fresh_peer add_peer add_at find_free find_peer bytes_eq snprintf_s
sub_sig_ice_offer-first_example =
    sub_sig_ice_offer-first (record { agent = some 5; allocated = true; created_us = 9 }) 5 0
      (some (codes "l")) [] (codes "pub") (codes "o") (codes "c") watching refl refl refl

abbrev sub_config : SubscriberConfig
sub_config = record {
  room_id = none;
  stun_host = none;
  stun_port = 0;
  turn_host = none;
  turn_port = 0;
  turn_username = none;
  turn_password = none;
  on_video = true;
  on_audio = true;
}

-- The subscriber of this configuration.
abbrev new_subscriber : Subscriber
new_subscriber = record {
  engine =
      set_up (subscriber_engine_config sub_config)
        (engine_init-some (subscriber_engine_config sub_config)).0;
  signaling = zero_online;
  room_id = snprintf_s 64 (codes "default");
  publisher_peer_id = [];
  has_on_video = true;
  has_on_audio = true;
  running = false;
}

initialised : p2p_subscriber_init sub_config true true ≡ some new_subscriber
unfolding p2p_subscriber_init
initialised =
    ap (subscriber_of sub_config) (engine_init-some (subscriber_engine_config sub_config)).1

abbrev keyframe : MediaFrame
keyframe = record { is_key = true; seq_num = 1; timestamp_us = 9; bytes = 3 ∷ [] }

p2p_subscriber_init-deaf_example :
    let host = (p2p_subscriber_start true new_subscriber).0.engine.host in
    ((on_video host 4 keyframe (fresh_peer 0)).1 ≡ [])
    × ((on_audio host 4 keyframe (fresh_peer 0)).1 ≡ [])
    × (on_datachannel_msg host (1 ∷ 2 ∷ []) (fresh_peer 0) ≡ [])
    × (on_request_keyframe host (fresh_peer 0) ≡ [])
p2p_subscriber_init-deaf_example =
    p2p_subscriber_init-deaf sub_config true true true new_subscriber 4 keyframe (1 ∷ 2 ∷ [])
      (fresh_peer 0) initialised
