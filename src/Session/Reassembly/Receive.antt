-- ===== src/Session/Reassembly/Receive.antt =====
-- Whole frames and video sequence numbers in `internal_on_data_recv` of src/p2p/src/p2pav.c.
use libp2pchannel.Prelude.{
  ℕ, ◌+◌, ◌-◌, ◌%◌, ◌^◌, ◌≤◌, ◌<◌, ◌≡◌, ◌⊎◌, inl, inr, Bool, true, false, not, ◌&&◌, ◌||◌, none,
  some, List, arith, ltb, leb, ◌==◌, if◌then◌else◌, length, take,
}
use libp2pchannel.Adapter.{FrameHeader, has_key_flag}
use libp2pchannel.Adapter.FrameType
use libp2pchannel.Session.Reassembly.{
  Reasm, Intake, Frame, video_checks, add_fragment, receive, write_at,
}
use libp2pchannel.Session.Reassembly.Laws.{IsValid, fragment_header, add_whole}

-- The three buffers of a peer are valid and idle, as they are when only whole frames have come.
pub record IsIdle (ps : Intake) : Type 0 where
  pub video_valid : IsValid ps.video_reasm
  pub audio_valid : IsValid ps.audio_reasm
  pub data_valid : IsValid ps.data_reasm
  pub video_idle : ps.video_reasm.active ≡ false
  pub audio_idle : ps.audio_reasm.active ≡ false
  pub data_idle : ps.data_reasm.active ≡ false

-- The buffer's size for a type of frame.
abbrev pub room : ℕ → Intake → ℕ
room type ps =
    if type == FrameType.video
    then ps.video_reasm.max_size
    else if type == FrameType.audio
    then ps.audio_reasm.max_size
    else ps.data_reasm.max_size

-- A whole video frame that shows a gap in the numbers, at least 200 ms after the last request.
abbrev pub is_asked_for : ℕ → ℕ → Frame → Intake → Bool
is_asked_for now seq f ps =
    f.type == FrameType.video
    && (ps.has_last_video_seq
        && ltb ((ps.last_video_seq + 1) % 2 ^ 32) seq
        && leb 200000 ((now + 2 ^ 64 - ps.last_idr_req_us) % 2 ^ 64))

-- A video frame without the key flag, while a keyframe is awaited, after a gap if there is one.
abbrev pub is_held_back : ℕ → ℕ → Frame → Intake → Bool
is_held_back now seq f ps =
    f.type == FrameType.video
    && not (has_key_flag f.flags)
    && (ps.waiting_for_keyframe
        || (ps.has_last_video_seq
            && ltb ((ps.last_video_seq + 1) % 2 ^ 32) seq
            && leb 200000 ((now + 2 ^ 64 - ps.last_idr_req_us) % 2 ^ 64)))

-- The checks leave the buffers alone, ask just if `is_asked_for` says so, and hold a first fragment back just as `is_held_back` says.
video_checks-first :
    (now now' : ℕ) (hdr : FrameHeader) (ps : Intake)
    → hdr.frag_offset ≡ 0
    → ps.video_reasm.active ≡ false
    → let (ps', asked, goes_on) = video_checks now now' hdr ps in
      (ps'.video_reasm ≡ ps.video_reasm)
      × (ps'.audio_reasm ≡ ps.audio_reasm)
      × (ps'.data_reasm ≡ ps.data_reasm)
      × (asked ≡ (
          if ps.has_last_video_seq
            && ltb ((ps.last_video_seq + 1) % 2 ^ 32) hdr.seq
            && leb 200000 ((now + 2 ^ 64 - ps.last_idr_req_us) % 2 ^ 64)
          then 1
          else 0))
      × (goes_on ≡ (
          has_key_flag hdr.flags
          || not (
              ps.waiting_for_keyframe
              || (ps.has_last_video_seq
                  && ltb ((ps.last_video_seq + 1) % 2 ^ 32) hdr.seq
                  && leb 200000 ((now + 2 ^ 64 - ps.last_idr_req_us) % 2 ^ 64)))))
unfolding video_checks
video_checks-first now now' hdr ps o i = ground arith

video_checks-waiting :
    (now now' : ℕ) (hdr : FrameHeader) (ps : Intake)
    → hdr.frag_offset ≡ 0
    → ps.waiting_for_keyframe ≡ true
    → let (ps', asked, goes_on) = video_checks now now' hdr ps in
      (ps'.video_reasm ≡ ps.video_reasm)
      × (ps'.waiting_for_keyframe ≡ not (has_key_flag hdr.flags))
      × (goes_on ≡ has_key_flag hdr.flags)
unfolding video_checks
video_checks-waiting now now' hdr ps o w = ground arith

video_checks-asks :
    (now now' : ℕ) (hdr : FrameHeader) (ps : Intake)
    → ps.last_idr_req_us ≤ now
    → now ≤ now'
    → now' < now + 200000
    → now' < 2 ^ 64
    → let (ps', asked, goes_on) = video_checks now now' hdr ps in
      (asked ≤ 1) × ((asked ≡ 0) ⊎ (ps.last_idr_req_us + 200000 ≤ now'))
unfolding video_checks
video_checks-asks now now' hdr ps h k l m = ground arith

-- A whole frame of at least one byte, of video, audio or data, that fits its buffer comes out at once
-- with its bytes, flags and time, unless it is held back for a keyframe; then nothing comes out. One
-- keyframe is asked for just if `is_asked_for` says so. The
-- buffers of the peer stay valid and idle. Memory for the copy is there.
pub receive-whole :
    (now now' seq : ℕ) (f : Frame) {ps : Intake}
    → IsIdle ps
    → (f.type ≡ FrameType.video) ⊎ (f.type ≡ FrameType.audio) ⊎ (f.type ≡ FrameType.data_msg)
    → 0 < length f.bytes
    → length f.bytes ≤ room f.type ps
    → let (ps', asked, out) = receive true now now' (fragment_header f seq 0 f.bytes) f.bytes ps in
      IsIdle ps'
      × (out ≡ (if is_held_back now seq f ps then none else some f))
      × (asked ≡ (if is_asked_for now seq f ps then 1 else 0))
unfolding receive
receive-whole now now' seq f {ps} v (inl t) some_bytes fits = ground (
  arith,
  video_checks-first now now' (fragment_header f seq 0 f.bytes) ps,
  add_whole f seq v.video_valid,
)
receive-whole now now' seq f {ps} v (inr (inl t)) some_bytes fits =
    ground (arith, add_whole f seq v.audio_valid)
receive-whole now now' seq f {ps} v (inr (inr t)) some_bytes fits =
    ground (arith, add_whole f seq v.data_valid)

-- While a keyframe is awaited, a first fragment of video without the key flag changes neither this nor
-- what the video buffer holds, and nothing comes out; one with the key flag ends the waiting.
pub receive-waiting :
    (allocated : Bool) (now now' : ℕ) (hdr : FrameHeader) (payload : List ℕ) (ps : Intake)
    → hdr.type ≡ FrameType.video
    → hdr.frag_offset ≡ 0
    → ps.waiting_for_keyframe ≡ true
    → let (ps', asked, out) = receive allocated now now' hdr payload ps in
      (ps'.waiting_for_keyframe ≡ not (has_key_flag hdr.flags))
      × ((has_key_flag hdr.flags ≡ true) ⊎ ((out ≡ none) × (ps'.video_reasm ≡ ps.video_reasm)))
unfolding receive
receive-waiting allocated now now' hdr payload ps t o w =
    ground (arith, video_checks-waiting now now' hdr ps o w)

-- One fragment asks for at most one keyframe, if the second reading of the clock is not 200 ms behind
-- the first; and none is asked for within 200 ms of the last request.
pub receive-asks :
    (allocated : Bool) (now now' : ℕ) (hdr : FrameHeader) (payload : List ℕ) (ps : Intake)
    → ps.last_idr_req_us ≤ now
    → now ≤ now'
    → now' < now + 200000
    → now' < 2 ^ 64
    → let (ps', asked, out) = receive allocated now now' hdr payload ps in
      (asked ≤ 1) × ((asked ≡ 0) ⊎ (ps.last_idr_req_us + 200000 ≤ now'))
unfolding receive
receive-asks allocated now now' hdr payload ps h k l m =
    ground (arith, video_checks-asks now now' hdr ps h k l m)

-- A first half that arrives twice completes the frame, whose second half is then what the buffer held
-- before.
pub duplicate_completes :
    (half : List ℕ) (f : Frame) (seq : ℕ) (rb : Reasm)
    → 0 < length half
    → length half + length half ≡ length f.bytes
    → length f.bytes ≤ rb.max_size
    → rb.max_size < 2 ^ 32
    → rb.active ≡ false
    → let h = fragment_header f seq 0 half in
      (add_fragment true h half (add_fragment true h half rb).0).1
      ≡ some (record f {
        bytes =
            take
              (length f.bytes)
              (write_at (write_at rb.bytes 0 half (length half)) 0 half (length half));
      })
unfolding add_fragment
duplicate_completes half f seq rb some_bytes two fits small idle = ground arith
