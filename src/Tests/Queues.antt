-- ===== src/Tests/Queues.antt =====
-- The packet queue and the frame send queue at concrete inputs.
use libp2pchannel.Prelude.{◌≡◌, refl, true, false, [], ◌∷◌, arith, replicate, pos}
use libp2pchannel.PacketQueue.{PacketQueue, zero_packet}
use libp2pchannel.PacketQueue.Inv.{IsValid}
use libp2pchannel.PacketQueue.Refine.{contents}
use libp2pchannel.PacketQueue.Trace.{run, fifo_run, run-fifo_run, pushes, pops}
use libp2pchannel.Adapter.{quic_connected}
use libp2pchannel.FrameQueue.{FrameQueue, empty_entry, frame_queue_push, Outlets, flush}
use libp2pchannel.FrameQueue
use libp2pchannel.FrameQueue.Inv as FrameInv
use libp2pchannel.FrameQueue.Refine as FrameRefine
use libp2pchannel.FrameQueue.Refine.{kept, contents-frame_queue_push}
use libp2pchannel.FrameQueue.Flush.{writes, flush-writes}

-- Two slots of which the second is in use, so the next packet goes to the first.
abbrev wrapped : PacketQueue
wrapped = record {
  buf =
      zero_packet
      ∷ record { bytes = 9 ∷ 9 ∷ 9 ∷ []; size = 3; recv_time_us = 40; agent_idx = pos 1 }
      ∷ [];
  capacity = 2;
  head = 1;
  tail = 0;
  count = 1;
}

wrapped-IsValid : IsValid wrapped
wrapped-IsValid = record {
  positive = omega arith;
  storage = refl;
  head_in = omega arith;
  tail_is = refl;
  count_in = omega arith;
}

run-fifo_run_example :
    run wrapped (pops ∷ pushes (5 ∷ []) 60 (pos 0) ∷ pops ∷ pops ∷ [])
    ≡ fifo_run 2 (contents wrapped) (pops ∷ pushes (5 ∷ []) 60 (pos 0) ∷ pops ∷ pops ∷ [])
run-fifo_run_example =
    run-fifo_run (pops ∷ pushes (5 ∷ []) 60 (pos 0) ∷ pops ∷ pops ∷ []) wrapped-IsValid

-- A frame queue that is full and whose oldest frame stands last in memory.
abbrev full : FrameQueue
full = record { entries = replicate 32 empty_entry; head = 31; count = 32 }

full-IsValid : FrameInv.IsValid full
full-IsValid = record { storage = refl; head_in = omega arith; count_in = omega arith }

contents-frame_queue_push_example :
    let (q', s) = frame_queue_push full quic_connected 4 0 1 90 (1 ∷ 2 ∷ []) 2 false in
    (FrameRefine.contents q' ≡ kept (FrameRefine.contents full)) × (s ≡ FrameQueue.failure)
contents-frame_queue_push_example =
    contents-frame_queue_push 4 0 1 90 (1 ∷ 2 ∷ []) 2 quic_connected false full-IsValid

abbrev ready_outlets : Outlets
ready_outlets = record {
  video_subscribe_id = pos 1;
  audio_subscribe_id = pos 2;
  has_video_track = true;
  has_audio_track = true;
  datachannel_ready = true;
}

flush-writes_example :
    let (q', ws) = flush ready_outlets (λ e. true) full in
    (ws ≡ writes ready_outlets (λ e. true) (FrameRefine.contents full))
    × (FrameRefine.contents q' ≡ [])
    × FrameInv.IsValid q'
flush-writes_example = flush-writes ready_outlets (λ e. true) full-IsValid
