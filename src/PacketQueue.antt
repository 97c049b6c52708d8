-- ===== src/PacketQueue.antt =====
-- The received packet queue, src/p2p/src/p2p_packet_queue.c and its header: a circular buffer of
-- packets. A pointer argument that may be NULL is an option; NULL for `buf` is the empty list. The
-- mutex makes each call one step, so the calls are plain functions on the state. Whether `calloc`
-- succeeds is the argument `allocated`.
pub mod Fifo
pub mod Inv
pub mod Refine
pub mod Trace
use libp2pchannel.Prelude.{
  ℕ, zero, suc, ◌+◌, ◌-◌, ◌%◌, Bool, ◌||◌, Option, none, some, List, [], ltb, leb, ◌==◌,
  if◌then◌else◌, get_or, set, replicate, memcpy, ℤ, pos, negsuc,
}

-- `P2P_PKT_MAX_SIZE`
abbrev pub pkt_max_size : ℕ
pkt_max_size = 1500

-- `p2p_packet_t`
pub record Packet : Type 0 where
  pub bytes : List ℕ
  pub size : ℕ
  pub recv_time_us : ℕ
  pub agent_idx : ℤ

-- `p2p_packet_queue_t`, less its mutex and condition variable
pub record PacketQueue : Type 0 where
  pub buf : List Packet
  pub capacity : ℕ
  pub head : ℕ
  pub tail : ℕ
  pub count : ℕ

-- The return codes 0 and -1.
pub data Status : Type 0 where
  success failure : Status

unfoldable pub zero_packet : Packet
zero_packet = record {
  bytes = replicate pkt_max_size 0;
  size = 0;
  recv_time_us = 0;
  agent_idx = pos 0;
}

-- The body of `p2p_packet_queue_init` for a capacity above zero.
unfoldable pub init_sized : PacketQueue → ℕ → Bool → PacketQueue × Status
init_sized q capacity allocated =
    if allocated
    then (
      record {
        buf = replicate capacity zero_packet;
        capacity = capacity;
        head = 0;
        tail = 0;
        count = 0;
      },
      success,
    )
    else (record q { buf = [] }, failure)

-- `p2p_packet_queue_init`
unfoldable pub init : Option PacketQueue → ℤ → Bool → Option PacketQueue × Status
unfolding init_sized
init none capacity allocated = (none, failure)
init (some q) (negsuc n) allocated = (some q, failure)
init (some q) (pos zero) allocated = (some q, failure)
init (some q) (pos (suc n)) allocated = let (q', s) = init_sized q (suc n) allocated in (some q', s)

-- `p2p_packet_queue_destroy`
unfoldable pub destroy : Option PacketQueue → Option PacketQueue
destroy none = none
destroy (some q) = some (record q { buf = [] })

-- The packet that a push leaves in the slot `old`.
abbrev pub filled : Packet → List ℕ → ℕ → ℕ → ℤ → Packet
filled old payload size recv_time_us agent_idx = record {
  bytes = memcpy old.bytes payload size;
  size = size;
  recv_time_us = recv_time_us;
  agent_idx = agent_idx;
}

-- The locked part of `p2p_packet_queue_push`.
pub push_locked : PacketQueue → List ℕ → ℕ → ℕ → ℤ → PacketQueue × Status
push_locked q payload size recv_time_us agent_idx =
    if leb q.capacity q.count then (q, failure) else (
      record q {
        buf =
            set q.buf q.tail
              (filled (get_or q.buf q.tail zero_packet) payload size recv_time_us agent_idx);
        tail = (q.tail + 1) % q.capacity;
        count = q.count + 1;
      },
      success,
    )

-- `p2p_packet_queue_push`
pub push : Option PacketQueue → Option (List ℕ) → ℕ → ℕ → ℤ → Option PacketQueue × Status
push none payload size recv_time_us agent_idx = (none, failure)
push (some q) none size recv_time_us agent_idx = (some q, failure)
push (some q) (some payload) size recv_time_us agent_idx =
    if size == 0 || ltb pkt_max_size size
    then (some q, failure)
    else let (q', s) = push_locked q payload size recv_time_us agent_idx in (some q', s)

-- `p2p_packet_queue_pop` with `q` and `out` given; the option is what goes through `out`.
pub pop : PacketQueue → PacketQueue × Option Packet
pop q = if q.count == 0 then (q, none) else (
  record q { head = (q.head + 1) % q.capacity; count = q.count - 1 },
  some (get_or q.buf q.head zero_packet),
)

-- `p2p_packet_queue_count`
unfoldable pub count : Option PacketQueue → ℕ
count none = 0
count (some q) = q.count
