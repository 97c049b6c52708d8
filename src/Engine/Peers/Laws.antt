-- ===== src/Engine/Peers/Laws.antt =====
-- The peer table of src/p2p/src/p2p_adapter.c as its clients see it.
use libp2pchannel.Prelude.{
  ℕ, ◌+◌, ◌<◌, ◌≡◌, refl, sym, ap, subst, ◌∙◌, ◌≢◌, inl, inr, Bool, true, Option, none, some, List,
  [], arith, ℕ_discrete, Option-cases, length, get_or, set, length-set, get_or-set_self,
  get_or-set_ne, pos,
}
use native.Mathlib.Nat.{zero-add}
use libp2pchannel.Prelude.Text.{snprintf_s, snprintf_s_short, bytes_eq_iff}
use libp2pchannel.Adapter.{max_subscribers}
use libp2pchannel.Peer.{Peer, fresh_peer}
use libp2pchannel.Engine.{Engine, peer_at, set_peer}
use libp2pchannel.Engine.Peers.{
  is_free, find_free, named, add_at, add_peer, removed, remove_peer, find_peer,
}
use libp2pchannel.Engine.Peers.Slots.{find_free_found, find_peer-set}

-- What `p2p_engine_add_peer` has done to the table when it returns slot `i`.
pub record Added (id : List ℕ) (eng eng' : Engine) (agent now i : ℕ) : Type 0 where
  pub in_range : i < length eng.peers
  pub was_free : is_free (peer_at eng i) ≡ true
  pub counted : eng'.peer_count ≡ eng.peer_count + 1
  pub agent_set : (peer_at eng' i).ice_agent ≡ some agent
  pub named_so : (peer_at eng' i).peer_id ≡ snprintf_s 64 id
  pub session_set : (peer_at eng' i).has_user_session ≡ true
  pub stamped : (peer_at eng' i).created_us ≡ now
  pub others_kept : (j : ℕ) → j ≢ i → peer_at eng' j ≡ peer_at eng j

-- The slot and the engine that a successful call leaves.
abbrev pub added_slot : ℕ → List ℕ → ℕ → ℕ → Engine → Peer
added_slot i id agent now eng = record (named (peer_at eng i) id) {
  ice_agent = some agent;
  has_user_session = true;
  created_us = now;
}

abbrev pub added_engine : ℕ → List ℕ → ℕ → ℕ → Engine → Engine
added_engine i id agent now eng = record eng {
  peers = set eng.peers i (added_slot i id agent now eng);
  peer_count = eng.peer_count + 1;
}

add_at-some :
    (k : ℕ) (id : List ℕ) (agent : ℕ) (allocated : Bool) (now i : ℕ) (eng : Engine)
    → (add_at k id (some agent) allocated now eng).1 ≡ some i
    → (k ≡ i) × ((add_at k id (some agent) allocated now eng).0 ≡ added_engine k id agent now eng)
unfolding add_at
add_at-some k id agent allocated now i eng e = ground arith

pub add_peer-some :
    (id : List ℕ) (agent : ℕ) (allocated : Bool) (now i : ℕ) (eng : Engine)
    → (add_peer id (some agent) allocated now eng).1 ≡ some i
    → (eng.peer_count < max_subscribers)
      × (find_free 0 eng.peers ≡ some i)
      × ((add_peer id (some agent) allocated now eng).0 ≡ added_engine i id agent now eng)
unfolding add_peer
add_peer-some id agent allocated now i eng e = elim (Option-cases (find_free 0 eng.peers)) [
  | inl p ↦ ground arith
  | inr (k, p) ↦ ground (arith, add_at-some k id agent allocated now i eng)
]

add_at_all :
    (k : ℕ) (id : List ℕ) (agent : ℕ) (allocated : Bool) (now i : ℕ) (eng : Engine)
    → (add_at k id (some agent) allocated now eng).1 ≡ some i
    → add_at k id (some agent) allocated now eng ≡ (added_engine i id agent now eng, some i, [])
unfolding add_at
add_at_all k id agent allocated now i eng e = ground arith

-- All that a successful `p2p_engine_add_peer` returns.
pub add_peer_all :
    (id : List ℕ) (agent : ℕ) (allocated : Bool) (now i : ℕ) (eng : Engine)
    → (add_peer id (some agent) allocated now eng).1 ≡ some i
    → add_peer id (some agent) allocated now eng ≡ (added_engine i id agent now eng, some i, [])
unfolding add_peer
add_peer_all id agent allocated now i eng e = elim (Option-cases (find_free 0 eng.peers)) [
  | inl p ↦ ground arith
  | inr (k, p) ↦ ground (arith, add_at_all k id agent allocated now i eng)
]

pub slot_found :
    (i : ℕ) (eng : Engine)
    → find_free 0 eng.peers ≡ some i
    → (i < length eng.peers) × (is_free (peer_at eng i) ≡ true)
slot_found i eng e =
    let (j, a, b, c) = find_free_found (fresh_peer i) 0 i eng.peers e in
    (omega arith, ap (λ k. is_free (get_or eng.peers k (fresh_peer i))) (a ∙ zero-add j) ∙ c)

add_peer-slot :
    (id : List ℕ) (agent : ℕ) (allocated : Bool) (now i : ℕ) (eng : Engine)
    → (add_peer id (some agent) allocated now eng).1 ≡ some i
    → Added id eng (add_peer id (some agent) allocated now eng).0 agent now i
      × (eng.peer_count < max_subscribers)
add_peer-slot id agent allocated now i eng e =
    let (few, found, is) = add_peer-some id agent allocated now i eng e in
    let (h, free) = slot_found i eng found in
    let new = get_or-set_self eng.peers i (added_slot i id agent now eng) (fresh_peer i) h in
    rw is (
      record {
        in_range = h;
        was_free = free;
        counted = refl;
        agent_set = ap (λ (p : Peer). p.ice_agent) new;
        named_so = ap (λ (p : Peer). p.peer_id) new;
        session_set = ap (λ (p : Peer). p.has_user_session) new;
        stamped = ap (λ (p : Peer). p.created_us) new;
        others_kept = λ j ne.
            get_or-set_ne eng.peers i j (added_slot i id agent now eng) (fresh_peer j)
              (λ q. ne (sym q));
      },
      few,
    )

-- Without an agent no slot is returned.
add_peer-no_agent :
    (id : List ℕ) (allocated : Bool) (now i : ℕ) (eng : Engine)
    → (add_peer id none allocated now eng).1 ≢ some i
unfolding add_peer add_at
add_peer-no_agent id allocated now i eng e = elim (Option-cases (find_free 0 eng.peers)) [
  | inl p ↦ ground arith
  | inr (k, p) ↦ ground arith
]

-- `p2p_engine_add_peer` returns a slot only if libjuice gave it an agent and there were fewer than ten
-- peers. The slot was free and now has the agent, the name cut to 63 bytes, a user session and the
-- time; one peer more is counted, and every other slot is as it was.
pub add_peer-Added :
    (id : List ℕ) (created : Option ℕ) (allocated : Bool) (now i : ℕ) (eng : Engine)
    → (add_peer id created allocated now eng).1 ≡ some i
    → (agent : ℕ) × (created ≡ some agent)
      × Added id eng (add_peer id created allocated now eng).0 agent now i
      × (eng.peer_count < max_subscribers)
add_peer-Added id none allocated now i eng e = absurd (add_peer-no_agent id allocated now i eng e)
add_peer-Added id (some agent) allocated now i eng e =
    let (added, few) = add_peer-slot id agent allocated now i eng e in (agent, refl, added, few)

free_no_agent : (p : Peer) → is_free p ≡ true → p.ice_agent ≡ none
free_no_agent p h = ground arith

slot_without_agent :
    (i : ℕ) (id : List ℕ) (eng : Engine) (j : ℕ)
    → i < length eng.peers
    → is_free (peer_at eng i) ≡ true
    → let eng' = set_peer eng i (record (named (peer_at eng i) id) { ice_agent = none }) in
      (eng'.peer_count ≡ eng.peer_count)
      × ((peer_at eng' j).ice_agent ≡ (peer_at eng j).ice_agent)
      × ((peer_at eng' j).state ≡ (peer_at eng j).state)
slot_without_agent i id eng j h free =
    let p = record (named (peer_at eng i) id) { ice_agent = none } in
    elim (ℕ_discrete i j) [
      | yes q ↦
          subst
            (λ k.
              (eng.peer_count ≡ eng.peer_count)
              × ((get_or (set eng.peers i p) k (fresh_peer k)).ice_agent
                  ≡ (peer_at eng k).ice_agent)
              × ((get_or (set eng.peers i p) k (fresh_peer k)).state ≡ (peer_at eng k).state))
            q
            (rw (get_or-set_self eng.peers i p (fresh_peer i) h)
              (refl, sym (free_no_agent (peer_at eng i) free), refl))
      | no q ↦ rw (get_or-set_ne eng.peers i j p (fresh_peer j) q) (refl, refl, refl)
    ]

add_at-none :
    (i : ℕ) (id : List ℕ) (created : Option ℕ) (allocated : Bool) (now : ℕ) (eng : Engine) (j : ℕ)
    → i < length eng.peers
    → is_free (peer_at eng i) ≡ true
    → (add_at i id created allocated now eng).1 ≡ none
    → let eng' = (add_at i id created allocated now eng).0 in
      (eng'.peer_count ≡ eng.peer_count)
      × ((peer_at eng' j).ice_agent ≡ (peer_at eng j).ice_agent)
      × ((peer_at eng' j).state ≡ (peer_at eng j).state)
unfolding add_at
add_at-none i id none allocated now eng j h free e = slot_without_agent i id eng j h free
add_at-none i id (some agent) allocated now eng j h free e =
    ground (arith, slot_without_agent i id eng j h free)

-- `p2p_engine_add_peer` fails: the count stays, no slot has gained or lost an agent, or changed its
-- state.
pub add_peer-none :
    (id : List ℕ) (created : Option ℕ) (allocated : Bool) (now : ℕ) (eng : Engine) (j : ℕ)
    → (add_peer id created allocated now eng).1 ≡ none
    → let eng' = (add_peer id created allocated now eng).0 in
      (eng'.peer_count ≡ eng.peer_count)
      × ((peer_at eng' j).ice_agent ≡ (peer_at eng j).ice_agent)
      × ((peer_at eng' j).state ≡ (peer_at eng j).state)
unfolding add_peer
add_peer-none id created allocated now eng j e = elim (Option-cases (find_free 0 eng.peers)) [
  | inl p ↦ ground arith
  | inr (i, p) ↦ ground (arith, add_at-none i id created allocated now eng j, slot_found i eng p)
]

-- A peer that was added under a new name of at most 63 bytes is the one that
-- `p2p_engine_find_peer` finds.
pub find_peer-add_peer :
    (id : List ℕ) (agent : ℕ) (allocated : Bool) (now i : ℕ) (eng : Engine)
    → length id < 64
    → find_peer 0 id eng.peers ≡ none
    → (add_peer id (some agent) allocated now eng).1 ≡ some i
    → find_peer 0 id (add_peer id (some agent) allocated now eng).0.peers ≡ some i
find_peer-add_peer id agent allocated now i eng short absent e =
    let (few, found, is) = add_peer-some id agent allocated now i eng e in
    let (h, free) = slot_found i eng found in
    rw (is, snprintf_s_short 64 id short)
      (find_peer-set id 0 i eng.peers _ h ((bytes_eq_iff id id).1 refl) absent
        ∙ ap some (zero-add i))

-- `p2p_engine_remove_peer` undoes `p2p_engine_add_peer`: the count is what it was, the slot is free
-- again, without connection, session or name, and every other slot is as it was.
pub remove_peer-add_peer :
    (id : List ℕ) (agent : ℕ) (allocated : Bool) (now i j : ℕ) (eng : Engine)
    → length eng.peers ≡ max_subscribers
    → (add_peer id (some agent) allocated now eng).1 ≡ some i
    → j ≢ i
    → let eng' = (remove_peer (pos i) (add_peer id (some agent) allocated now eng).0).0 in
      (eng'.peer_count ≡ eng.peer_count)
      × (is_free (peer_at eng' i) ≡ true)
      × ((peer_at eng' i).xqc_conn ≡ none)
      × ((peer_at eng' i).moq_session ≡ none)
      × ((peer_at eng' i).peer_id ≡ [])
      × (peer_at eng' j ≡ peer_at eng j)
unfolding remove_peer removed
remove_peer-add_peer id agent allocated now i j eng ten e ne =
    let (few, found, is) = add_peer-some id agent allocated now i eng e in
    let (h, free) = slot_found i eng found in
    let ps = set eng.peers i (added_slot i id agent now eng) in
    ground (
      arith,
      is,
      get_or-set_self ps i (removed (get_or ps i (fresh_peer i))) (fresh_peer i),
      length-set eng.peers i (added_slot i id agent now eng),
      get_or-set_ne ps i j (removed (get_or ps i (fresh_peer i))) (fresh_peer j),
      get_or-set_ne eng.peers i j (added_slot i id agent now eng) (fresh_peer j),
    )
