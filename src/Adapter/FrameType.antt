-- ===== src/Adapter/FrameType.antt =====
-- The frame types `P2P_FRAME_TYPE_VIDEO` and so on of src/p2p/include/p2p_adapter.h.
use libp2pchannel.Prelude.{ℕ}

abbrev pub video : ℕ
video = 1

abbrev pub audio : ℕ
audio = 2

abbrev pub idr_req : ℕ
idr_req = 3

-- `P2P_FRAME_TYPE_DATA`; the name `data` is taken
abbrev pub data_msg : ℕ
data_msg = 4

abbrev pub video_stop : ℕ
video_stop = 5

abbrev pub video_start : ℕ
video_start = 6

abbrev pub audio_stop : ℕ
audio_stop = 7

abbrev pub audio_start : ℕ
audio_start = 8

abbrev pub ping : ℕ
ping = 9
