-- ===== src/Engine/Peers/Slots.antt =====
-- The searches of the peer table of src/p2p/src/p2p_adapter.c: the first free slot, and the first slot of
-- a name.
use libp2pchannel.Prelude.{
  ℕ, zero, suc, ◌+◌, ◌<◌, ◌≡◌, refl, inl, inr, Bool, true, false, ◌&&◌, none, some, List, [], ◌∷◌,
  arith, Bool-cases, length, get_or, set,
}
use libp2pchannel.Prelude.Text.{bytes_eq}
use libp2pchannel.Peer.{Peer, is_set}
use libp2pchannel.Engine.Peers.{is_free, find_free, find_peer}

pub find_free_found :
    (d : Peer) (i k : ℕ) (ps : List Peer)
    → find_free i ps ≡ some k
    → (j : ℕ) × (k ≡ i + j) × (j < length ps) × (is_free (get_or ps j d) ≡ true)
unfolding find_free
find_free_found d i k [] h = cc
find_free_found d i k (p ∷ ps) h = elim (Bool-cases (is_free p)) [
  | inl e ↦ (0, ground arith, omega arith, e)
  | inr e ↦
      let (j, a, b, c) = find_free_found d (i + 1) k ps (rw e at h) in
      (suc j, omega arith, omega arith, c)
]

-- A slot that has an agent and the name.
abbrev pub has_name : List ℕ → Peer → Bool
has_name id p = is_set p.ice_agent && bytes_eq p.peer_id id

-- Writing a slot of the name where no slot had it before makes the search find that slot.
pub find_peer-set :
    (id : List ℕ) (i j : ℕ) (ps : List Peer) (p : Peer)
    → j < length ps
    → has_name id p ≡ true
    → find_peer i id ps ≡ none
    → find_peer i id (set ps j p) ≡ some (i + j)
unfolding find_peer
find_peer-set id i j [] p h e n = absurd (omega arith)
find_peer-set id i zero (q ∷ ps) p h e n = ground arith
find_peer-set id i (suc j) (q ∷ ps) p h e n = ground (arith, find_peer-set id (i + 1) j ps p)

-- Overwriting slots keeps the name absent, if the new slot does not have it.
pub find_peer-set-none :
    (id : List ℕ) (i j : ℕ) (ps : List Peer) (p : Peer)
    → has_name id p ≡ false
    → find_peer i id ps ≡ none
    → find_peer i id (set ps j p) ≡ none
unfolding find_peer
find_peer-set-none id i j [] p e n = refl
find_peer-set-none id i zero (q ∷ ps) p e n = ground arith
find_peer-set-none id i (suc j) (q ∷ ps) p e n =
    ground (arith, find_peer-set-none id (i + 1) j ps p)

-- The search by name finds a slot of the name.
pub find_peer_found :
    (d : Peer) (id : List ℕ) (i k : ℕ) (ps : List Peer)
    → find_peer i id ps ≡ some k
    → (j : ℕ) × (k ≡ i + j) × (j < length ps) × (has_name id (get_or ps j d) ≡ true)
unfolding find_peer
find_peer_found d id i k [] h = cc
find_peer_found d id i k (p ∷ ps) h = elim (Bool-cases (has_name id p)) [
  | inl e ↦ (0, ground arith, omega arith, e)
  | inr e ↦
      let (j, a, b, c) = find_peer_found d id (i + 1) k ps (rw e at h) in
      (suc j, omega arith, omega arith, c)
]

-- A name that is found stays found in its slot, when a later slot is written.
pub find_peer-set_later :
    (id : List ℕ) (i k j : ℕ) (ps : List Peer) (p : Peer)
    → find_peer i id ps ≡ some k
    → k < i + j
    → find_peer i id (set ps j p) ≡ some k
unfolding find_peer
find_peer-set_later id i k j [] p e h = e
find_peer-set_later id i k zero (q ∷ ps) p e h =
    let (j, a, b, c) = find_peer_found p id i k (q ∷ ps) e in absurd (omega arith)
find_peer-set_later id i k (suc j) (q ∷ ps) p e h = elim (Bool-cases (has_name id q)) [
  | inl b ↦ ground arith
  | inr b ↦ ground (arith, find_peer-set_later id (i + 1) k j ps p)
]
