-- ===== src/Publisher/Laws.antt =====
-- What the publisher of src/p2p/src/p2p_publisher.c tells a new subscriber, and what it
-- does to a signaling client that was never connected.
use libp2pchannel.Prelude.{
  ℕ, suc, ◌%◌, ◌^◌, ◌≤◌, ◌<◌, ◌≡◌, refl, ap, ◌∙◌, Bool, true, false, Option, none, some, List, [],
  ◌∷◌, ◌++◌, arith, ltb, leb, lt→ltb, length, get_or-set_self,
}
use libp2pchannel.Prelude.Ledger.{ledger}
use libp2pchannel.Adapter.{quic_connected}
use libp2pchannel.Adapter.FrameType
use libp2pchannel.FrameQueue.Inv.{IsValid}
use libp2pchannel.FrameQueue.Refine.{contents, kept, offered}
use libp2pchannel.Peer.{fresh_peer}
use libp2pchannel.Peer.Send.{send_data_via_quic}
use libp2pchannel.Peer.Send.Laws.{send_data_via_quic-queue}
use libp2pchannel.Engine.{Engine, peer_at}
use libp2pchannel.PacketQueue.{Status, success, failure}
use libp2pchannel.Engine.Peers.{add_peer}
use libp2pchannel.Engine.Peers.Laws.{
  added_slot, added_engine, add_peer-some, add_peer_all, slot_found,
}
use libp2pchannel.Engine.Life.{engine_start}
use libp2pchannel.Signaling.Connect.{p2p_signaling_disconnect}
use libp2pchannel.Signaling.Connect.Laws.{left_open}
use libp2pchannel.Session.{send_ice_offer, gather_candidates}
use libp2pchannel.Session.Signals.{Creation}
use libp2pchannel.Session.Media.{World}
use libp2pchannel.Publisher.Signals.{pub_on_quic_connected, pub_sig_peer_joined}
use libp2pchannel.Publisher.Media.{Numbers, p2p_publisher_send_video}
use libp2pchannel.Publisher.{
  PublisherConfig, Publisher, publisher_of, publisher_started, p2p_publisher_init,
  p2p_publisher_start, p2p_publisher_stop, zero_online, max_idr_cache_size,
}

-- A keyframe of at most 512 KiB that the publisher has sent is what a subscriber that connects next is
-- sent: it stands last in that peer's queue, as a keyframe, but with the number 0, whatever number it was
-- sent with. The peer is connected, memory is there, and its queue is valid.
pub pub_on_quic_connected-cached :
    (w w' : World) (i b : ℕ) (bs : List ℕ) (time : ℕ) (n : Numbers) (p p' : Publisher)
    → length (b ∷ bs) ≤ max_idr_cache_size
    → p' ≡ (p2p_publisher_send_video w (some (b ∷ bs)) time true n p).1
    → i < length p'.engine.peers
    → (peer_at p'.engine i).state ≡ quic_connected
    → w'.allocated (peer_at p'.engine i).index ≡ true
    → IsValid (peer_at p'.engine i).frame_queue
    → contents (peer_at (pub_on_quic_connected w' i p').engine i).frame_queue
      ≡ kept (contents (peer_at p'.engine i).frame_queue)
        ++ (offered FrameType.video 1 0 w'.now (b ∷ bs) (length (b ∷ bs)) ∷ [])
unfolding pub_on_quic_connected p2p_publisher_send_video
pub_on_quic_connected-cached w w' i b bs time n p p' fits is h c m v =
    let bytes = b ∷ bs in
    let room : leb (length bytes) max_idr_cache_size ≡ true = ground (arith, fits) in
    let cache : p'.idr_cache ≡ bytes = ap (λ (q : Publisher). q.idr_cache) is ∙ rw room refl in
    let short : suc (length bs) % 2 ^ 32 ≡ suc (length bs) = omega (arith, fits) in
    let peer = peer_at p'.engine i in
    let sent =
      send_data_via_quic p'.engine.host w'.now FrameType.video 1 0 w'.now bytes (length bytes)
        (w'.allocated peer.index) peer p'.engine.next_wakeup_us in
    let (v', same, q, st) =
      send_data_via_quic-queue p'.engine.host w'.now FrameType.video 1 0 w'.now bytes (length bytes)
        (w'.allocated peer.index) peer p'.engine.next_wakeup_us v in
    let new = get_or-set_self p'.engine.peers i sent.0 (fresh_peer i) h in
    let given : ltb 0 (suc (length bs)) ≡ true = lt→ltb 0 (suc (length bs)) (omega arith) in
    rw (cache, short, given, new) (q ∙ rw (c, m) refl)

-- A publisher whose libjuice has no local description offers what was on its stack. The engine has a
-- slot for the subscriber and libjuice an agent.
pub pub_sig_peer_joined-stack :
    (c : Creation) (agent i : ℕ) (stack pid : List ℕ) (p : Publisher)
    → c.agent ≡ some agent
    → (add_peer pid c.agent c.allocated c.created_us p.engine).1 ≡ some i
    → let (p', ns) = pub_sig_peer_joined c none stack pid p in
      (ns ≡ send_ice_offer pid stack ∷ gather_candidates agent ∷ [])
      × (p'.engine ≡ added_engine i pid agent c.created_us p.engine)
unfolding pub_sig_peer_joined
pub_sig_peer_joined-stack c agent i stack pid p a e =
    let e' : (add_peer pid (some agent) c.allocated c.created_us p.engine).1 ≡ some i = rw a at e in
    let (few, found, is) = add_peer-some pid agent c.allocated c.created_us i p.engine e' in
    let (h, free) = slot_found i p.engine found in
    let slot = added_slot i pid agent c.created_us p.engine in
    rw
      (
        a,
        add_peer_all pid agent c.allocated c.created_us i p.engine e',
        get_or-set_self p.engine.peers i slot (fresh_peer i) h,
      )
      (refl, refl)

unconnected :
    (cfg : PublisherConfig) (made : Option Engine) (p : Publisher)
    → publisher_of cfg made ≡ some p
    → p.signaling ≡ zero_online
unconnected cfg none p h = cc
unconnected cfg (some eng) p h = ground (arith, h)

init_unconnected :
    (cfg : PublisherConfig) (cache memory xquic : Bool) (p : Publisher)
    → p2p_publisher_init cfg cache memory xquic ≡ some p
    → p.signaling ≡ zero_online
unfolding p2p_publisher_init
init_unconnected cfg false memory xquic p h = cc
init_unconnected cfg true memory xquic p h = unconnected cfg _ p h

publisher_started-signaling :
    (r : Engine × Status) (p : Publisher) → (publisher_started r p).0.signaling ≡ p.signaling
publisher_started-signaling (eng, success) p = refl
publisher_started-signaling (eng, failure) p = refl

-- A publisher that was initialised, started and stopped destroys a lock of its signaling client that was
-- never initialised, since no step of it connects the client: what the stop closes was not open.
pub p2p_publisher_stop-unopened :
    (cfg : PublisherConfig) (cache memory xquic thread : Bool) (p : Publisher)
    → p2p_publisher_init cfg cache memory xquic ≡ some p
    → left_open (p2p_publisher_stop (p2p_publisher_start thread p).0).1 ≡ none
unfolding ledger p2p_publisher_stop p2p_publisher_start p2p_signaling_disconnect
p2p_publisher_stop-unopened cfg cache memory xquic thread p e =
    let same =
      publisher_started-signaling (engine_start thread p.engine) p
      ∙ init_unconnected cfg cache memory xquic p e in
    rw same refl
