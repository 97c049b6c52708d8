-- ===== src/Peer/Send/Laws.antt =====
-- What happens to what the application sends through src/p2p/src/p2p_adapter.c.
use libp2pchannel.Prelude.{
  ℕ, ◌+◌, ◌^◌, ◌<◌, ◌≡◌, refl, ap, ◌∙◌, Bool, true, ◌&&◌, some, List, [], ◌∷◌, ◌++◌, map, arith,
  if◌then◌else◌, length,
}
use libp2pchannel.Adapter.{is_quic_connected, quic_connected}
use libp2pchannel.Adapter.FrameType
use libp2pchannel.FrameQueue.{FrameEntry, flush, datachannel, frame_queue_push}
use libp2pchannel.FrameQueue.Inv.{IsValid, frame_queue_push-IsValid}
use libp2pchannel.FrameQueue.Refine.{contents, kept, offered, contents-frame_queue_push}
use libp2pchannel.FrameQueue.Flush.{flush-writes, writes-data_message}
use libp2pchannel.Peer.{Peer, Host, success, failure, on_data_recv, moq_write}
use libp2pchannel.Peer.Moq.{on_datachannel_msg, on_datachannel_msg-payload, header_of_type}
use libp2pchannel.Peer.Send.{send_data_via_quic, outlets, flush_send_queue}

-- `p2p_peer_send_data_via_quic` succeeds just if the peer is QUIC connected and memory is there. Then
-- the frame stands last in the queue, behind what a full queue keeps, and the engine wakes up at once;
-- on failure the engine is not woken up.
pub send_data_via_quic_lem :
    (host : Host) (now type flags seq time : ℕ) (payload : List ℕ) (len : ℕ) (allocated : Bool)
    (p : Peer) (wakeup : ℕ)
    → IsValid p.frame_queue
    → host.has_xqc_engine ≡ true
    → let (p', wakeup', s) =
        send_data_via_quic host now type flags seq time payload len allocated p wakeup in
      let sent = is_quic_connected p.state && allocated in
      (s ≡ (if sent then success else failure))
      × (wakeup' ≡ (if sent then now else wakeup))
      × (contents p'.frame_queue ≡ (
          if sent
          then kept (contents p.frame_queue) ++ (offered type flags seq time payload len ∷ [])
          else if is_quic_connected p.state
          then kept (contents p.frame_queue)
          else contents p.frame_queue))
unfolding send_data_via_quic
send_data_via_quic_lem host now type flags seq time payload len allocated p wakeup v x =
    ground (arith, contents-frame_queue_push type flags seq time payload len p.state allocated v)

-- What `p2p_peer_send_data_via_quic` leaves of the peer and of its queue, which stays valid.
pub send_data_via_quic-queue :
    (host : Host) (now type flags seq time : ℕ) (payload : List ℕ) (len : ℕ) (allocated : Bool)
    (p : Peer) (wakeup : ℕ)
    → IsValid p.frame_queue
    → let (p', wakeup', s) =
        send_data_via_quic host now type flags seq time payload len allocated p wakeup in
      IsValid p'.frame_queue
      × (p' ≡ record p { frame_queue = p'.frame_queue })
      × (contents p'.frame_queue ≡ (
          if is_quic_connected p.state && allocated
          then kept (contents p.frame_queue) ++ (offered type flags seq time payload len ∷ [])
          else if is_quic_connected p.state
          then kept (contents p.frame_queue)
          else contents p.frame_queue))
      × (s ≡ (if is_quic_connected p.state && allocated then success else failure))
unfolding send_data_via_quic
send_data_via_quic-queue host now type flags seq time payload len allocated p wakeup v = ground (
  arith,
  contents-frame_queue_push type flags seq time payload len p.state allocated v,
  frame_queue_push-IsValid type flags seq time payload len allocated p.state v,
)

send_data_via_quic_sent :
    (host : Host) (now type flags seq time : ℕ) (payload : List ℕ) (len : ℕ) (p : Peer) (wakeup : ℕ)
    → IsValid p.frame_queue
    → p.state ≡ quic_connected
    → (send_data_via_quic host now type flags seq time payload len true p wakeup).0 ≡ record p {
      frame_queue = (frame_queue_push p.frame_queue p.state type flags seq time payload len true).0;
    }
unfolding send_data_via_quic
send_data_via_quic_sent host now type flags seq time payload len p wakeup v c =
    ground (arith, contents-frame_queue_push type flags seq time payload len p.state true v)

flush_send_queue_lem :
    (p : Peer) (session : ℕ)
    → p.moq_session ≡ some session
    → (flush_send_queue (λ e. true) p).1
      ≡ map (λ w. moq_write session w) (flush (outlets p) (λ e. true) p.frame_queue).1
unfolding flush_send_queue
flush_send_queue_lem p session s = rw s

pub flush_send_queue_all :
    (allocated : FrameEntry → Bool) (p : Peer) (session : ℕ)
    → p.moq_session ≡ some session
    → let (q, ws) = flush (outlets p) allocated p.frame_queue in
      flush_send_queue allocated p
      ≡ (record p { frame_queue = q }, map (λ w. moq_write session w) ws)
unfolding flush_send_queue
flush_send_queue_all allocated p session s = rw s refl

-- The flush of a single data message.
flush-data_message :
    (host : Host) (now seq time session wakeup : ℕ) (payload : List ℕ) (p : Peer)
    → IsValid p.frame_queue
    → contents p.frame_queue ≡ []
    → p.state ≡ quic_connected
    → p.moq_session ≡ some session
    → p.datachannel_ready ≡ true
    → length payload + 1 < 2 ^ 32
    → (flush_send_queue
        (λ e. true)
        (send_data_via_quic host now FrameType.data_msg 0 seq time payload
          (length payload)
          true
          p
          wakeup).0).1
      ≡ moq_write session (datachannel (FrameType.data_msg ∷ payload)) ∷ []
flush-data_message host now seq time session wakeup payload p v empty c s r h =
    rw
      (send_data_via_quic_sent host now FrameType.data_msg 0 seq time payload (length payload) p
        wakeup v c)
      (flush_send_queue_lem _ session s ∙ ap (map (λ w. moq_write session w)) written)
  where
    queued :
        contents
          (frame_queue_push p.frame_queue p.state FrameType.data_msg 0 seq time payload
            (length payload)
            true).0
        ≡ offered FrameType.data_msg 0 seq time payload (length payload) ∷ []
    queued = ground (
      arith,
      contents-frame_queue_push FrameType.data_msg 0 seq time payload (length payload) p.state true
          v,
    )

    written :
        (flush
          (outlets p)
          (λ e. true)
          (frame_queue_push p.frame_queue p.state FrameType.data_msg 0 seq time payload
            (length payload)
            true).0).1
        ≡ datachannel (FrameType.data_msg ∷ payload) ∷ []
    written =
        (flush-writes (outlets p) (λ e. true)
          (frame_queue_push-IsValid FrameType.data_msg 0 seq time payload (length payload) true
            p.state v)).0
        ∙ rw queued (writes-data_message (outlets p) seq time payload r h)

-- A data message of at least one byte and less than 2^32 - 1 bytes that was sent on an empty queue and flushed arrives whole: what the receiver's data
-- channel callback gets is delivered to its application as one data frame with the same bytes. The
-- sender is connected, its data channel is ready, memory is there; the receiver has its callback set.
pub data_message_arrives :
    (host other : Host) (now seq time session wakeup byte : ℕ) (rest : List ℕ) (p q : Peer)
    → IsValid p.frame_queue
    → contents p.frame_queue ≡ []
    → p.state ≡ quic_connected
    → p.moq_session ≡ some session
    → p.datachannel_ready ≡ true
    → other.callbacks.data_recv ≡ true
    → length (byte ∷ rest) + 1 < 2 ^ 32
    → let payload = byte ∷ rest in
      let p' =
        (send_data_via_quic host now FrameType.data_msg 0 seq time payload
          (length payload)
          true
          p
          wakeup).0 in
      let header = record (header_of_type FrameType.data_msg) {
        total_len = length payload;
        frag_len = length payload;
      } in
      ((flush_send_queue (λ e. true) p').1
        ≡ moq_write session (datachannel (FrameType.data_msg ∷ payload)) ∷ [])
      × (on_datachannel_msg other (FrameType.data_msg ∷ payload) q
          ≡ on_data_recv q.index header (some payload) ∷ [])
data_message_arrives host other now seq time session wakeup byte rest p q v empty c s r d l = (
  flush-data_message host now seq time session wakeup (byte ∷ rest) p v empty c s r l,
  on_datachannel_msg-payload other FrameType.data_msg byte rest q d (omega arith),
)
