-- ===== src/Session/Create/Laws.antt =====
-- What `p2pav_session_create` of src/p2p/src/p2pav.c sets up.
use libp2pchannel.Prelude.{
  ℕ, zero, suc, ◌^◌, ◌<◌, ◌≡◌, refl, false, Option, none, some, List, arith, length, get_or,
  replicate, length-replicate,
}
use libp2pchannel.Prelude.Text.{length-snprintf_s}
use libp2pchannel.Peer.{fresh_peer}
use libp2pchannel.Engine.Life.{copied}
use libp2pchannel.Engine.Peers.{find_peer}
use libp2pchannel.Session.{Session, fresh_intake, no_channel, max_peers, max_data_channels}
use libp2pchannel.Session.Channels
use libp2pchannel.Session.Reassembly
use libp2pchannel.Session.Reassembly.{reasm_buf_init, video_max_size, audio_max_size, data_max_size}
use libp2pchannel.Session.Reassembly.Receive.{IsIdle}
use libp2pchannel.Session.Receive.{intake_at}
use libp2pchannel.Session.Create.{SessionConfig, new_session}

-- What a session is between `p2pav_session_create` and its start: the strings end inside their arrays,
-- the channels' numbers are valid, each of the ten peers' buffers is valid and idle, and nothing runs.
pub record Created (s : Session) : Type 0 where
  pub url_fits : length s.signaling_url < 256
  pub token_fits : length s.auth_token < 1024
  pub room_fits : length s.room_id < 64
  pub name_fits : length s.own_id < 64
  pub stun_fits : length s.stun_server < 256
  pub turn_fits : length s.turn_server < 256
  pub username_fits : length s.session_turn_username < 128
  pub password_fits : length s.session_turn_password < 128
  pub channels_valid : Channels.Laws.IsValid s
  pub channels : length s.data_channels ≡ max_data_channels
  pub intakes : length s.peer_states ≡ max_peers
  pub idle : (i : ℕ) → IsIdle (intake_at s i)
  pub not_running : s.session_running ≡ false
  pub not_started : s.engine_started ≡ false
  pub nobody : (id : List ℕ) → find_peer 0 id s.engine.peers ≡ none

copied_fits : (size : ℕ) (text : Option (List ℕ)) → 0 < size → length (copied size text) < size
copied_fits size none h = h
copied_fits size (some text) h = length-snprintf_s size text h

get_or-replicate_none : (n i : ℕ) → (get_or (replicate n no_channel) i no_channel) ≡ no_channel
get_or-replicate_none zero i = refl
get_or-replicate_none (suc n) zero = refl
get_or-replicate_none (suc n) (suc i) = get_or-replicate_none n i

reasm_buf_init-IsValid :
    (fill size : ℕ)
    → size < 2 ^ 32
    → Reassembly.Laws.IsValid (reasm_buf_init fill size)
      × ((reasm_buf_init fill size).active ≡ false)
unfolding reasm_buf_init
reasm_buf_init-IsValid fill size h =
    (record { memory = length-replicate size fill; fits = λ e. cc; small = h }, refl)

fresh_intake-IsIdle : (fill : ℕ) → IsIdle (fresh_intake fill)
unfolding fresh_intake
fresh_intake-IsIdle fill = record {
  video_valid = (reasm_buf_init-IsValid fill video_max_size (omega arith)).0;
  audio_valid = (reasm_buf_init-IsValid fill audio_max_size (omega arith)).0;
  data_valid = (reasm_buf_init-IsValid fill data_max_size (omega arith)).0;
  video_idle = (reasm_buf_init-IsValid fill video_max_size (omega arith)).1;
  audio_idle = (reasm_buf_init-IsValid fill audio_max_size (omega arith)).1;
  data_idle = (reasm_buf_init-IsValid fill data_max_size (omega arith)).1;
}

replicate-IsIdle :
    (n i fill : ℕ) → IsIdle (get_or (replicate n (fresh_intake fill)) i (fresh_intake 0))
replicate-IsIdle zero i fill = fresh_intake-IsIdle 0
replicate-IsIdle (suc n) zero fill = fresh_intake-IsIdle fill
replicate-IsIdle (suc n) (suc i) fill = replicate-IsIdle n i fill

pub new_session-Created :
    (fill : ℕ) (c : SessionConfig) (url room peer : List ℕ)
    → Created (new_session fill c url room peer)
unfolding new_session find_peer fresh_peer
new_session-Created fill c url room peer = record {
  url_fits = length-snprintf_s 256 url (omega arith);
  token_fits = copied_fits 1024 c.config_token (omega arith);
  room_fits = length-snprintf_s 64 room (omega arith);
  name_fits = length-snprintf_s 64 peer (omega arith);
  stun_fits = copied_fits 256 c.config_stun (omega arith);
  turn_fits = copied_fits 256 c.config_turn (omega arith);
  username_fits = copied_fits 128 c.config_turn_username (omega arith);
  password_fits = copied_fits 128 c.config_turn_password (omega arith);
  channels_valid = record {
    given = λ i h. ground (arith, get_or-replicate_none max_data_channels i);
    unique = λ i j h h' e. ground (arith, get_or-replicate_none max_data_channels i);
  };
  channels = refl;
  intakes = refl;
  idle = λ i. replicate-IsIdle max_peers i fill;
  not_running = refl;
  not_started = refl;
  nobody = λ id. refl;
}
