-- ===== src/Session/Reassembly.antt =====
-- The reassembly of fragmented frames in src/p2p/src/p2pav.c: `reasm_buf_t` and the part of
-- `internal_on_data_recv` under its mutex. The clock is read at most twice, as `now` and `now'`.
pub mod Laws
pub mod Receive
use libp2pchannel.Prelude.{
  ℕ, ◌+◌, ◌-◌, ◌*◌, ◌%◌, ◌^◌, Bool, true, false, not, ◌&&◌, ◌||◌, Option, none, some, List, ◌++◌,
  ltb, leb, ◌==◌, if◌then◌else◌, take, drop, replicate,
}
use libp2pchannel.Adapter.{FrameHeader, has_key_flag}
use libp2pchannel.Adapter.FrameType

-- `REASM_VIDEO_MAX_SIZE`, `REASM_AUDIO_MAX_SIZE` and `REASM_DATA_MAX_SIZE`
abbrev pub video_max_size : ℕ
video_max_size = 512 * 1024

abbrev pub audio_max_size : ℕ
audio_max_size = 8 * 1024

abbrev pub data_max_size : ℕ
data_max_size = 64 * 1024

-- `reasm_buf_t`; `bytes` is the memory behind `data`.
pub record Reasm : Type 0 where
  pub type : ℕ
  pub flags : ℕ
  pub seq : ℕ
  pub timestamp_us : ℕ
  pub total_len : ℕ
  pub received : ℕ
  pub max_size : ℕ
  pub active : Bool
  pub bytes : List ℕ

-- `reasm_buf_init`, whose memory is there; its bytes are not initialised, `fill` stands for them.
unfoldable pub reasm_buf_init : ℕ → ℕ → Reasm
reasm_buf_init fill max_size = record {
  type = 0;
  flags = 0;
  seq = 0;
  timestamp_us = 0;
  total_len = 0;
  received = 0;
  max_size = max_size;
  active = false;
  bytes = replicate max_size fill;
}

-- `p2pav_peer_state_t`
pub record Intake : Type 0 where
  pub video_reasm : Reasm
  pub audio_reasm : Reasm
  pub data_reasm : Reasm
  pub last_video_seq : ℕ
  pub has_last_video_seq : Bool
  pub waiting_for_keyframe : Bool
  pub last_idr_req_us : ℕ

-- Asking for a keyframe, at most once in 200 ms; the result says whether the request is sent.
unfoldable pub ask_keyframe : ℕ → Intake → Intake × Bool
ask_keyframe now ps =
    if leb 200000 ((now + 2 ^ 64 - ps.last_idr_req_us) % 2 ^ 64)
    then (record ps { last_idr_req_us = now; waiting_for_keyframe = true }, true)
    else (ps, false)

-- The gap in the sequence numbers of whole frames.
unfoldable pub check_gap : ℕ → FrameHeader → Intake → Intake × Bool
unfolding ask_keyframe
check_gap now hdr ps =
    if ps.has_last_video_seq
      && hdr.frag_offset == 0
      && ltb ((ps.last_video_seq + 1) % 2 ^ 32) hdr.seq
    then ask_keyframe now ps
    else (ps, false)

-- The frame before that was left incomplete.
unfoldable pub check_incomplete : ℕ → FrameHeader → Intake → Intake × Bool
unfolding ask_keyframe
check_incomplete now hdr ps =
    let rb = ps.video_reasm in
    if rb.active && not (hdr.seq == rb.seq) && ltb rb.received rb.total_len
    then ask_keyframe now ps
    else (ps, false)

-- The end of the checks: the number is remembered, and whether the fragment goes on. While a keyframe
-- is awaited, the first fragment of any other frame is dropped.
unfoldable pub await_keyframe : FrameHeader → Intake → Intake × Bool
await_keyframe hdr ps =
    let first = hdr.frag_offset == 0 in
    let noted =
      if first then record ps { last_video_seq = hdr.seq; has_last_video_seq = true } else ps in
    if ps.waiting_for_keyframe && first
    then (if has_key_flag hdr.flags
        then (record noted { waiting_for_keyframe = false }, true)
        else (noted, false))
    else (noted, true)

-- The checks of a video fragment: the state, how many requests are sent, and whether it goes on.
unfoldable pub video_checks : ℕ → ℕ → FrameHeader → Intake → Intake × ℕ × Bool
unfolding check_gap check_incomplete await_keyframe
video_checks now now' hdr ps =
    let (ps1, asked) = check_gap now hdr ps in
    let (ps2, asked') = check_incomplete now' hdr ps1 in
    let (ps3, goes_on) = await_keyframe hdr ps2 in
    (ps3, (if asked then 1 else 0) + (if asked' then 1 else 0), goes_on)

-- The reset for a new frame; an older number and a frame that is too large do not go on.
unfoldable pub begin_frame : FrameHeader → Reasm → Reasm × Bool
begin_frame hdr rb =
    if not rb.active || not (rb.seq == hdr.seq) || not (rb.type == hdr.type)
    then (if rb.active && hdr.type == rb.type && ltb hdr.seq rb.seq
        then (rb, false)
        else if ltb rb.max_size hdr.total_len
        then (
          record rb {
            type = hdr.type;
            flags = hdr.flags;
            seq = hdr.seq;
            timestamp_us = hdr.timestamp_us;
            total_len = hdr.total_len;
            received = 0;
            active = false;
          },
          false,
        )
        else (
          record rb {
            type = hdr.type;
            flags = hdr.flags;
            seq = hdr.seq;
            timestamp_us = hdr.timestamp_us;
            total_len = hdr.total_len;
            received = 0;
            active = true;
          },
          true,
        ))
    else (rb, true)

-- `memcpy(bytes + offset, src, n)`. Where this reaches past the memory, the list becomes longer than it.
abbrev pub write_at : List ℕ → ℕ → List ℕ → ℕ → List ℕ
write_at bytes offset src n = take offset bytes ++ (take n src ++ drop (offset + n) bytes)

-- The bounds check, whose sum wraps, and the copy; the truth value says whether it goes on.
unfoldable pub store_fragment : FrameHeader → List ℕ → Reasm → Reasm × Bool
store_fragment hdr payload rb =
    let frag_end = (hdr.frag_offset + hdr.frag_len) % 2 ^ 32 in
    if leb rb.max_size hdr.frag_offset || ltb rb.max_size frag_end || ltb rb.total_len frag_end
    then (rb, false)
    else (
      record rb {
        bytes = write_at rb.bytes hdr.frag_offset payload hdr.frag_len;
        received = (rb.received + hdr.frag_len) % 2 ^ 32;
        flags = if hdr.frag_offset == 0 then hdr.flags else rb.flags;
      },
      true,
    )

-- A frame that is complete, as it is handed to the application.
pub record Frame : Type 0 where
  pub type : ℕ
  pub flags : ℕ
  pub timestamp_us : ℕ
  pub bytes : List ℕ

-- The end under the mutex: a complete frame is copied out, if memory is there, and the buffer is free.
unfoldable pub finish_frame : Bool → Reasm → Reasm × Option Frame
finish_frame allocated rb = if ltb rb.received rb.total_len then (rb, none) else (
  record rb { active = false; received = 0 },
  if allocated
      then some (record {
        type = rb.type;
        flags = rb.flags;
        timestamp_us = rb.timestamp_us;
        bytes = take rb.total_len rb.bytes;
      })
      else none,
)

-- A fragment from the reset on.
unfoldable pub add_fragment : Bool → FrameHeader → List ℕ → Reasm → Reasm × Option Frame
unfolding begin_frame store_fragment finish_frame
add_fragment allocated hdr payload rb =
    let (rb1, begun) = begin_frame hdr rb in
    let (rb2, stored) = store_fragment hdr payload rb1 in
    if not begun
    then (rb1, none)
    else if not stored
    then (rb2, none)
    else finish_frame allocated rb2

-- What `internal_on_data_recv` does under its mutex: the state, the number of keyframe requests that
-- are sent, and the complete frame. Other types of frames are ignored.
unfoldable pub receive : Bool → ℕ → ℕ → FrameHeader → List ℕ → Intake → Intake × ℕ × Option Frame
receive allocated now now' hdr payload ps =
    if hdr.type == FrameType.video
    then (let (ps', asked, goes_on) = video_checks now now' hdr ps in
        let (rb, frame) = add_fragment allocated hdr payload ps'.video_reasm in
        if goes_on then (record ps' { video_reasm = rb }, asked, frame) else (ps', asked, none))
    else if hdr.type == FrameType.audio
    then (let (rb, frame) = add_fragment allocated hdr payload ps.audio_reasm in
        (record ps { audio_reasm = rb }, 0, frame))
    else if hdr.type == FrameType.data_msg
    then (let (rb, frame) = add_fragment allocated hdr payload ps.data_reasm in
        (record ps { data_reasm = rb }, 0, frame))
    else (ps, 0, none)
