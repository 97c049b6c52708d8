-- ===== src/Session/Signals/Laws.antt =====
-- The exchange with a peer that comes and goes, in src/p2p/src/p2pav.c.
use native.Mathlib.Nat.{zero-add}
use libp2pchannel.Prelude.{
  set-set_self, ℕ, ◌+◌, ◌-◌, ◌<◌, ◌≡◌, refl, ap, ◌∙◌, ◌≢◌, true, false, Option, none, some, List,
  [], ◌∷◌, ◌++◌, arith, length, set, length-set, get_or-set_self, get_or-set_ne,
}
use libp2pchannel.Prelude.Text.{snprintf_s, snprintf_s_short, bytes_eq_iff}
use libp2pchannel.Adapter.{is_publisher, max_subscribers}
use libp2pchannel.Peer.{Peer, fresh_peer}
use libp2pchannel.Engine.{Engine, peer_at}
use libp2pchannel.Engine.Peers.{is_free, add_peer, find_peer, remove_peer, removed}
use libp2pchannel.Engine.Peers.Laws.{added_slot, add_peer-some, add_peer_all, slot_found}
use libp2pchannel.Engine.Peers.Slots.{find_peer-set, find_peer-set_later, has_name}
use libp2pchannel.Session.{
  Session, send_ice_offer, send_gathering_done, gather_candidates, set_remote_description,
  peer_joined, notify_if,
}
use libp2pchannel.Session.Signals.{
  Creation, internal_on_sig_peer_joined, internal_on_ice_gathering_done, internal_on_sig_ice_answer,
  internal_on_sig_peer_left, for_named,
}

gathering_done-pending :
    (now i agent : ℕ) (sdp : List ℕ) (s : Session)
    → i < length s.engine.peers
    → (peer_at s.engine i).offer_pending ≡ true
    → (peer_at s.engine i).ice_agent ≡ some agent
    → let id = (peer_at s.engine i).peer_id in
      let (s', ns) = internal_on_ice_gathering_done now (some sdp) i s in
      (ns ≡ send_ice_offer id sdp ∷ send_gathering_done id ∷ [])
      × (peer_at s'.engine i ≡ record (peer_at s.engine i) { offer_pending = false })
unfolding internal_on_ice_gathering_done
gathering_done-pending now i agent sdp s h o a = ground (
  arith,
  get_or-set_self s.engine.peers i (record (peer_at s.engine i) { offer_pending = false })
      (fresh_peer i) h,
)

gathering_done-again :
    (now i : ℕ) (local : Option (List ℕ)) (s : Session)
    → (peer_at s.engine i).offer_pending ≡ false
    → (internal_on_ice_gathering_done now local i s).1
      ≡ send_gathering_done (peer_at s.engine i).peer_id ∷ []
unfolding internal_on_ice_gathering_done
gathering_done-again now i local s o = ground arith

-- The slot of a peer that has joined.
abbrev pub joined_slot : ℕ → List ℕ → Creation → ℕ → Engine → Peer
joined_slot i pid c agent eng = record (added_slot i pid agent c.created_us eng) {
  offer_pending = true;
}

abbrev pub joined_engine : ℕ → List ℕ → Creation → ℕ → Engine → Engine
joined_engine i pid c agent eng = record eng {
  peers = set eng.peers i (joined_slot i pid c agent eng);
  peer_count = eng.peer_count + 1;
}

-- All that the arrival of a peer does to a publisher, if the engine takes the peer.
pub peer_joined_all :
    (now agent i : ℕ) (c : Creation) (pid : List ℕ) (s : Session)
    → is_publisher s.role ≡ true
    → c.agent ≡ some agent
    → (add_peer pid c.agent c.allocated c.created_us s.engine).1 ≡ some i
    → (i < length s.engine.peers)
      × (internal_on_sig_peer_joined now c pid s ≡ (
        record s {
          engine = joined_engine i pid c agent s.engine;
          timing = record s.timing { ice_gathering_start_us = now };
        },
        notify_if s.session_cbs.on_peer_joined (peer_joined pid) ++ (gather_candidates agent ∷ []),
      ))
unfolding internal_on_sig_peer_joined
peer_joined_all now agent i c pid s pb a e =
    let e' : (add_peer pid (some agent) c.allocated c.created_us s.engine).1 ≡ some i = rw a at e in
    let (few, found, is) = add_peer-some pid agent c.allocated c.created_us i s.engine e' in
    let (h, free) = slot_found i s.engine found in
    let mid = added_slot i pid agent c.created_us s.engine in
    (
      h,
      rw
          (
            pb,
            a,
            add_peer_all pid agent c.allocated c.created_us i s.engine e',
            get_or-set_self s.engine.peers i mid (fresh_peer i) h,
            set-set_self s.engine.peers i mid (joined_slot i pid c agent s.engine),
          )
          refl,
    )

-- A publisher offers itself once to a peer that has joined and that the engine has taken into slot `i`:
-- the first end of the gathering sends the offer with the local description, and another one only
-- says that gathering is done. The name is the peer's, cut to 63 bytes.
pub offer_once :
    (now now' now'' agent i : ℕ) (c : Creation) (pid sdp : List ℕ) (local : Option (List ℕ))
    (s : Session)
    → is_publisher s.role ≡ true
    → c.agent ≡ some agent
    → (add_peer pid c.agent c.allocated c.created_us s.engine).1 ≡ some i
    → let (s1, ns1) = internal_on_sig_peer_joined now c pid s in
      let (s2, ns2) = internal_on_ice_gathering_done now' (some sdp) i s1 in
      let (s3, ns3) = internal_on_ice_gathering_done now'' local i s2 in
      let id = snprintf_s 64 pid in
      (ns2 ≡ send_ice_offer id sdp ∷ send_gathering_done id ∷ [])
      × (ns3 ≡ send_gathering_done id ∷ [])
offer_once now now' now'' agent i c pid sdp local s pb a e =
    let (h, all) = peer_joined_all now agent i c pid s pb a e in
    let p = joined_slot i pid c agent s.engine in
    let new = get_or-set_self s.engine.peers i p (fresh_peer i) h in
    let s1 : Session = record s {
      engine = joined_engine i pid c agent s.engine;
      timing = record s.timing { ice_gathering_start_us = now };
    } in
    let (first, after) =
      gathering_done-pending now' i agent sdp s1 (omega (arith, length-set s.engine.peers i p))
        (ap (λ (q : Peer). q.offer_pending) new) (ap (λ (q : Peer). q.ice_agent) new) in
    let s2 = (internal_on_ice_gathering_done now' (some sdp) i s1).0 in
    let named : (peer_at s2.engine i).peer_id ≡ snprintf_s 64 pid =
      ap (λ (q : Peer). q.peer_id) after ∙ ap (λ (q : Peer). q.peer_id) new in
    rw all (
      first
          ∙ ap (λ (q : Peer). send_ice_offer q.peer_id sdp ∷ send_gathering_done q.peer_id ∷ [])
              new,
      gathering_done-again now'' i local s2 (ap (λ (q : Peer). q.offer_pending) after)
          ∙ ap (λ id. send_gathering_done id ∷ []) named,
    )

answer_goes :
    (from sdp : List ℕ) (k agent : ℕ) (s : Session)
    → find_peer 0 from s.engine.peers ≡ some k
    → (peer_at s.engine k).ice_agent ≡ some agent
    → internal_on_sig_ice_answer from sdp s ≡ set_remote_description agent sdp ∷ []
unfolding internal_on_sig_ice_answer for_named
answer_goes from sdp k agent s f a = ground arith

-- A peer that joins again before it is known to have left is counted twice, and the name still leads
-- to its old slot: an answer that the peer sends is given to the agent of the old slot, not to the one
-- that made the offer. The new slot is a later one.
pub rejoined_answer :
    (now agent old i k : ℕ) (c : Creation) (pid sdp : List ℕ) (s : Session)
    → is_publisher s.role ≡ true
    → c.agent ≡ some agent
    → (add_peer pid c.agent c.allocated c.created_us s.engine).1 ≡ some i
    → find_peer 0 pid s.engine.peers ≡ some k
    → k < i
    → (peer_at s.engine k).ice_agent ≡ some old
    → let s' = (internal_on_sig_peer_joined now c pid s).0 in
      (s'.engine.peer_count ≡ s.engine.peer_count + 1)
      × (internal_on_sig_ice_answer pid sdp s' ≡ set_remote_description old sdp ∷ [])
rejoined_answer now agent old i k c pid sdp s pb a e f lt o =
    let (h, all) = peer_joined_all now agent i c pid s pb a e in
    let p = joined_slot i pid c agent s.engine in
    let found = find_peer-set_later pid 0 k i s.engine.peers p f (omega arith) in
    let ne : i ≢ k = λ q. omega arith in
    let same = get_or-set_ne s.engine.peers i k p (fresh_peer k) ne in
    rw all (refl, answer_goes pid sdp k old _ found (ap (λ (q : Peer). q.ice_agent) same ∙ o))

peer_left_found :
    (pid : List ℕ) (i : ℕ) (s : Session)
    → find_peer 0 pid s.engine.peers ≡ some i
    → (peer_at s.engine i).index ≡ i
    → i < max_subscribers
    → (internal_on_sig_peer_left pid s).0 ≡ record s {
      engine = record s.engine {
        peers = set s.engine.peers i (removed (peer_at s.engine i));
        peer_count = s.engine.peer_count - 1;
      };
    }
unfolding internal_on_sig_peer_left remove_peer
peer_left_found pid i s f ix lt = ground arith

-- A peer whose name of at most 63 bytes was absent, and who joins a publisher and leaves again: as many
-- peers are counted as before, the slot is free, and every other slot is as it was. The engine has ten
-- slots, the slot knows its index, and the engine has taken the peer.
pub peer_left-peer_joined :
    (now agent i : ℕ) (c : Creation) (pid : List ℕ) (s : Session)
    → is_publisher s.role ≡ true
    → c.agent ≡ some agent
    → (add_peer pid c.agent c.allocated c.created_us s.engine).1 ≡ some i
    → length s.engine.peers ≡ max_subscribers
    → (peer_at s.engine i).index ≡ i
    → length pid < 64
    → find_peer 0 pid s.engine.peers ≡ none
    → let s' = (internal_on_sig_peer_left pid (internal_on_sig_peer_joined now c pid s).0).0 in
      (s'.engine.peer_count ≡ s.engine.peer_count)
      × (is_free (peer_at s'.engine i) ≡ true)
      × ((j : ℕ) → i ≢ j → peer_at s'.engine j ≡ peer_at s.engine j)
unfolding removed
peer_left-peer_joined now agent i c pid s pb a e ten ix short absent =
    let (h, all) = peer_joined_all now agent i c pid s pb a e in
    let p = joined_slot i pid c agent s.engine in
    let s1 : Session = record s {
      engine = joined_engine i pid c agent s.engine;
      timing = record s.timing { ice_gathering_start_us = now };
    } in
    let new = get_or-set_self s.engine.peers i p (fresh_peer i) h in
    let is_named : has_name pid p ≡ true =
      rw (snprintf_s_short 64 pid short) ((bytes_eq_iff pid pid).1 refl) in
    let found : find_peer 0 pid s1.engine.peers ≡ some i =
      find_peer-set pid 0 i s.engine.peers p h is_named absent ∙ ap some (zero-add i) in
    let left = peer_left_found pid i s1 found (ap (λ (q : Peer). q.index) new ∙ ix) (omega arith) in
    let gone = removed (peer_at s1.engine i) in
    rw (all, left)
      (
        omega arith,
        ap is_free (
            get_or-set_self (set s.engine.peers i p) i gone (fresh_peer i)
              (omega (arith, length-set s.engine.peers i p))),
        λ j ne.
            get_or-set_ne (set s.engine.peers i p) i j gone (fresh_peer j) ne
            ∙ get_or-set_ne s.engine.peers i j p (fresh_peer j) ne,
      )
