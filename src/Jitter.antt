-- ===== src/Jitter.antt =====
-- The video jitter buffer of src/p2p/src/p2p_adapter.c: eight slots of decoded frames, which `push`
-- fills in any order and `pop` empties by sequence number. A plane is an option of its bytes, `none`
-- for NULL; whether each `realloc` succeeds is an argument, and so is the clock.
pub mod Serial
pub mod Select
pub mod Inv
pub mod Order
use libp2pchannel.Prelude.{
  ℕ, ◌+◌, ◌-◌, ◌*◌, ◌/◌, ◌%◌, ◌^◌, Bool, true, false, ◌&&◌, ◌||◌, Option, none, some, List, [], ◌∷◌,
  map, ltb, leb, ◌==◌, if◌then◌else◌, get_or, set, take, replicate,
}
use libp2pchannel.Jitter.Serial.{serial_le}

-- `P2P_VIDEO_JITTER_SIZE`
abbrev pub jitter_size : ℕ
jitter_size = 8

-- The arguments of a push: the planes, their strides, the picture's size and its stamp.
pub record Picture : Type 0 where
  pub y : List ℕ
  pub u : List ℕ
  pub v : List ℕ
  pub lsy : ℕ
  pub lsu : ℕ
  pub lsv : ℕ
  pub w : ℕ
  pub h : ℕ
  pub timestamp_us : ℕ
  pub seq : ℕ

-- `p2p_jitter_frame_t`
pub record JitterFrame : Type 0 where
  pub y : Option (List ℕ)
  pub u : Option (List ℕ)
  pub v : Option (List ℕ)
  pub lsy : ℕ
  pub lsu : ℕ
  pub lsv : ℕ
  pub w : ℕ
  pub h : ℕ
  pub timestamp_us : ℕ
  pub seq : ℕ
  pub valid : Bool

-- `p2p_video_jitter_buf_t`, less its mutex and the unused indices
pub record Jitter : Type 0 where
  pub frames : List JitterFrame
  pub count : ℕ
  pub target_delay_us : ℕ

unfoldable pub zero_frame : JitterFrame
zero_frame = record {
  y = none;
  u = none;
  v = none;
  lsy = 0;
  lsu = 0;
  lsv = 0;
  w = 0;
  h = 0;
  timestamp_us = 0;
  seq = 0;
  valid = false;
}

-- `p2p_video_jitter_init`
unfoldable pub jitter_init : ℕ → Jitter
jitter_init target_delay_us = record {
  frames = replicate jitter_size zero_frame;
  count = 0;
  target_delay_us = target_delay_us;
}

-- `p2p_video_jitter_destroy`: the planes are freed.
unfoldable pub jitter_destroy : Jitter → Jitter
jitter_destroy jb = record jb {
  frames = map (λ (f : JitterFrame). record f { y = none; u = none; v = none }) jb.frames;
}

-- One round of the loops of `push` and `pop` that keep the best slot so far, with its sequence
-- number: slot `i` takes part if `kept` holds, and replaces the best one if `better` holds.
pub choose : (ℕ → ℕ → Bool) → Bool → ℕ → ℕ → Option (ℕ × ℕ) → Option (ℕ × ℕ)
choose better kept i seq none = if kept then some (i, seq) else none
choose better kept i seq (some (k, m)) = if kept && better m seq then some (i, seq) else some (k, m)

pub select :
    (JitterFrame → Bool) → (ℕ → ℕ → Bool) → ℕ → Option (ℕ × ℕ) → List JitterFrame → Option (ℕ × ℕ)
select keep better i best [] = best
select keep better i best (f ∷ fs) =
    select keep better (i + 1) (choose better (keep f) i f.seq best) fs

-- `(uint32_t)(jb->frames[i].seq - max_seq) < 0x80000000u`
abbrev pub newer : ℕ → ℕ → Bool
newer max_seq seq = serial_le max_seq seq

-- `(uint32_t)(best_seq - f->seq) < 0x80000000u`
abbrev pub older : ℕ → ℕ → Bool
older best_seq seq = serial_le seq best_seq

-- `drop_idx` of `p2p_video_jitter_push`
pub newest : List JitterFrame → Option (ℕ × ℕ)
newest frames = select (λ f. f.valid) newer 0 none frames

-- The frame without its planes and not valid.
abbrev pub cleared : JitterFrame → JitterFrame
cleared f = record f { y = none; u = none; v = none; valid = false }

-- Slot `i` gives up its planes and is no longer valid; one frame less is counted.
pub empty_slot : Jitter → ℕ → Jitter
empty_slot jb i = record jb {
  frames = set jb.frames i (cleared (get_or jb.frames i zero_frame));
  count = jb.count - 1;
}

-- The slot emptied at `drop_idx`; with no valid slot, which `Inv` rules out, the code would write
-- before the array.
pub drop_newest : Jitter → Jitter
drop_newest jb = elim (newest jb.frames) [ none ↦ jb | some (i, m) ↦ empty_slot jb i ]

-- The first slot that is not valid.
pub free_slot : ℕ → List JitterFrame → Option ℕ
free_slot i [] = none
free_slot i (f ∷ fs) = if f.valid then free_slot (i + 1) fs else some i

-- What a push leaves in its slot; the three truth values say whether each `realloc` succeeds.
abbrev pub stored : Picture → Bool → Bool → Bool → JitterFrame
stored p got_y got_u got_v = record {
  y = if got_y then some (take (p.lsy * p.h) p.y) else none;
  u = if got_u then some (take (p.lsu * (p.h / 2)) p.u) else none;
  v = if got_v then some (take (p.lsv * (p.h / 2)) p.v) else none;
  lsy = p.lsy;
  lsu = p.lsu;
  lsv = p.lsv;
  w = p.w;
  h = p.h;
  timestamp_us = p.timestamp_us;
  seq = p.seq;
  valid = true;
}

pub fill_slot : Jitter → JitterFrame → Option ℕ → Jitter
fill_slot jb f none = jb
fill_slot jb f (some i) = record jb { frames = set jb.frames i f; count = jb.count + 1 }

-- `p2p_video_jitter_push`
pub jitter_push : Jitter → Picture → Bool → Bool → Bool → Jitter
jitter_push jb p got_y got_u got_v =
    let room = if leb jitter_size jb.count then drop_newest jb else jb in
    fill_slot room (stored p got_y got_u got_v) (free_slot 0 room.frames)

-- `ready` of `p2p_video_jitter_pop`; the difference of the times wraps.
abbrev pub is_ready : Jitter → ℕ → JitterFrame → Bool
is_ready jb now f =
    leb 2 jb.count
    || (ltb 0 f.timestamp_us && leb jb.target_delay_us ((now + 2 ^ 64 - f.timestamp_us) % 2 ^ 64))

-- `best` of `p2p_video_jitter_pop`
pub oldest_ready : Jitter → ℕ → Option (ℕ × ℕ)
oldest_ready jb now = select (λ f. f.valid && is_ready jb now f) older 0 none jb.frames

pub take_slot : Jitter → Option (ℕ × ℕ) → Jitter × Option JitterFrame
take_slot jb none = (jb, none)
take_slot jb (some (i, m)) = (empty_slot jb i, some (get_or jb.frames i zero_frame))

-- `p2p_video_jitter_pop`; the option is what goes through `out`.
pub jitter_pop : Jitter → ℕ → Jitter × Option JitterFrame
jitter_pop jb now = if jb.count == 0 then (jb, none) else take_slot jb (oldest_ready jb now)
