-- ===== src/PacketQueue/Fifo.antt =====
-- The contract of the packet queue of src/p2p/src/p2p_packet_queue.c: a first-in first-out list of at
-- most `capacity` datagrams, which refuses an empty or an oversized datagram and a full queue.
use libp2pchannel.Prelude.{
  ℕ, Bool, ◌||◌, Option, none, some, List, [], ◌∷◌, ◌++◌, length, ltb, ◌==◌, if◌then◌else◌, ℤ,
}

-- A packet as its consumer sees it: the `size` bytes that were copied in.
pub record Datagram : Type 0 where
  pub payload : List ℕ
  pub recv_time_us : ℕ
  pub agent_idx : ℤ

abbrev pub accepts : ℕ → List Datagram → Datagram → Bool
accepts capacity ds d =
    if length d.payload == 0 || ltb 1500 (length d.payload)
    then Bool.false
    else ltb (length ds) capacity

abbrev pub push : ℕ → List Datagram → Datagram → List Datagram
push capacity ds d = if accepts capacity ds d then ds ++ (d ∷ []) else ds

abbrev pub pop : List Datagram → List Datagram × Option Datagram
pop [] = ([], none)
pop (d ∷ ds) = (ds, some d)
