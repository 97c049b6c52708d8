-- ===== src/Peer/Moq.antt =====
-- The media session callbacks of src/p2p/src/p2p_adapter.c: session setup, subscriptions, and the
-- arrival of messages and frames, which become frame headers for the application.
use libp2pchannel.Prelude.{
  ℕ, suc, ◌%◌, ◌^◌, ◌<◌, ◌≡◌, Bool, true, Option, none, some, List, [], ◌∷◌, arith, if◌then◌else◌,
  length, negsuc, to_int64, is_negative,
}
use libp2pchannel.Prelude.Text.{codes, bytes_eq}
use libp2pchannel.Adapter.{FrameHeader, publisher, subscriber}
use libp2pchannel.Adapter.FrameType
use libp2pchannel.Peer.{
  Peer, Host, Effect, on_data_recv, on_bitrate_change, subscribe_ok, subscribe_latest, call_if,
}

-- A zeroed `p2p_frame_header_t` of one type.
abbrev pub header_of_type : ℕ → FrameHeader
header_of_type type = record {
  type = type;
  flags = 0;
  seq = 0;
  timestamp_us = 0;
  total_len = 0;
  frag_offset = 0;
  frag_len = 0;
}

-- `moq_on_session_setup_cb`; the options are the results of `xqc_moq_track_create` for the video and
-- the audio track.
unfoldable pub on_session_setup : Host → Option ℕ → Option ℕ → Peer → Peer
on_session_setup host video audio p =
    let q = record p { video_subscribe_id = negsuc 0; audio_subscribe_id = negsuc 0 } in
    elim host.role [
      | subscriber ↦ q
      | publisher ↦ record q { video_track = video; audio_track = audio }
    ]

-- `moq_on_datachannel_cb`
unfoldable pub on_datachannel : Peer → Peer
on_datachannel p = record p { datachannel_ready = true }

-- `moq_on_datachannel_msg_cb`: the first byte is the type, the rest the payload.
unfoldable pub on_datachannel_msg : Host → List ℕ → Peer → List Effect
on_datachannel_msg host [] p = []
on_datachannel_msg host (type ∷ []) p =
    call_if host.callbacks.data_recv (on_data_recv p.index (header_of_type type) none)
on_datachannel_msg host (type ∷ b ∷ payload) p =
    let len = length (b ∷ payload) % 2 ^ 32 in
    call_if host.callbacks.data_recv (
      on_data_recv p.index (record (header_of_type type) { total_len = len; frag_len = len })
        (some (b ∷ payload)))

-- `moq_on_subscribe_cb`; `track_name` may be NULL. The session's `xqc_moq_write_subscribe_ok` gets
-- the same id.
unfoldable pub on_subscribe : ℕ → Option (List ℕ) → Peer → Peer × List Effect
on_subscribe subscribe_id track_name p = elim p.moq_session [
  | none ↦ (p, [])
  | some session ↦ (named track_name, subscribe_ok session subscribe_id ∷ [])
]
  where
    named : Option (List ℕ) → Peer
    named none = p
    named (some name) =
        if bytes_eq name (codes "video")
        then record p { video_subscribe_id = to_int64 subscribe_id }
        else if bytes_eq name (codes "audio")
        then record p { audio_subscribe_id = to_int64 subscribe_id }
        else p

-- `moq_on_request_keyframe_cb`
unfoldable pub on_request_keyframe : Host → Peer → List Effect
on_request_keyframe host p =
    call_if host.callbacks.data_recv (on_data_recv p.index (header_of_type FrameType.idr_req) none)

-- `moq_on_bitrate_change_cb`
unfoldable pub on_bitrate : Host → ℕ → Peer → List Effect
on_bitrate host bitrate p =
    call_if host.callbacks.bitrate_change (on_bitrate_change p.index bitrate)

subscribe_all : ℕ → List (List ℕ) → List Effect
subscribe_all session [] = []
subscribe_all session (t ∷ ts) = subscribe_latest session t ∷ subscribe_all session ts

-- `moq_on_catalog_cb`: every track of the catalog is subscribed.
unfoldable pub on_catalog : List (List ℕ) → Peer → List Effect
unfolding subscribe_all
on_catalog tracks p = elim p.moq_session [ none ↦ [] | some s ↦ subscribe_all s tracks ]

-- The frame that a video or audio callback receives.
pub record MediaFrame : Type 0 where
  pub is_key : Bool
  pub seq_num : ℕ
  pub timestamp_us : ℕ
  pub bytes : List ℕ

-- The header of a whole frame; `seq` and the lengths are cast to 32 bits.
abbrev pub frame_header : ℕ → ℕ → MediaFrame → FrameHeader
frame_header type flags f = record {
  type = type;
  flags = flags;
  seq = f.seq_num % 2 ^ 32;
  timestamp_us = f.timestamp_us;
  total_len = length f.bytes % 2 ^ 32;
  frag_offset = 0;
  frag_len = length f.bytes % 2 ^ 32;
}

abbrev pub key_flags : MediaFrame → ℕ
key_flags f = if f.is_key then 1 else 0

-- `moq_on_video_cb`
unfoldable pub on_video : Host → ℕ → MediaFrame → Peer → Peer × List Effect
on_video host subscribe_id f p = (
  if is_negative p.video_subscribe_id
      then record p { video_subscribe_id = to_int64 subscribe_id }
      else p,
  call_if host.callbacks.data_recv
      (on_data_recv p.index (frame_header FrameType.video (key_flags f) f) (some f.bytes)),
)

-- `moq_on_audio_cb`
unfoldable pub on_audio : Host → ℕ → MediaFrame → Peer → Peer × List Effect
on_audio host subscribe_id f p = (
  if is_negative p.audio_subscribe_id
      then record p { audio_subscribe_id = to_int64 subscribe_id }
      else p,
  call_if host.callbacks.data_recv
      (on_data_recv p.index (frame_header FrameType.audio 0 f) (some f.bytes)),
)

-- A message with a payload, shorter than 4 GiB, becomes one frame of its type with that payload.
pub on_datachannel_msg-payload :
    (host : Host) (type b : ℕ) (payload : List ℕ) (p : Peer)
    → host.callbacks.data_recv ≡ true
    → length (b ∷ payload) < 2 ^ 32
    → let len = length (b ∷ payload) in
      on_datachannel_msg host (type ∷ b ∷ payload) p
      ≡ on_data_recv p.index
          (record (header_of_type type) { total_len = len; frag_len = len })
          (some (b ∷ payload))
        ∷ []
unfolding on_datachannel_msg
on_datachannel_msg-payload host type b payload p r h =
    let e : suc (length payload) % 2 ^ 32 ≡ suc (length payload) = omega arith in rw (r, e)
