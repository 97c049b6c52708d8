-- ===== src/Session/Stats/Laws.antt =====
-- Which peer the diagnostics of src/p2p/src/p2pav.c report on.
use libp2pchannel.Prelude.{
  ℕ, zero, suc, ◌+◌, ◌<◌, ◌≡◌, refl, inl, inr, Bool, true, false, none, some, List, [], ◌∷◌, arith,
  Bool-cases, length, get_or,
}
use libp2pchannel.Adapter.{failed}
use libp2pchannel.Peer.{Peer}
use libp2pchannel.Session.{Session, SessionError}
use libp2pchannel.Session.Stats.{IceInfo, first_slot, get_net_stats, stats_of}

first_slot-found :
    (test : Peer → Bool) (i k : ℕ) (ps : List Peer) (d : Peer)
    → first_slot test i ps ≡ some k
    → (j : ℕ) × (k ≡ i + j)
      × (j < length ps)
      × (test (get_or ps j d) ≡ true)
      × ((m : ℕ) → m < j → test (get_or ps m d) ≡ false)
unfolding first_slot
first_slot-found test i k [] d e = cc
first_slot-found test i k (p ∷ ps) d e = elim (Bool-cases (test p)) [
  | inl t ↦ (0, ground arith, omega arith, t, λ m h. absurd (omega arith))
  | inr f ↦
      let (j, a, b, c, before) = first_slot-found test (i + 1) k ps d (ground arith) in
      (suc j, omega arith, omega arith, c, first_fails p ps j f before)
]
  where
    first_fails :
        (p : Peer) (ps : List Peer) (j : ℕ)
        → test p ≡ false
        → ((m : ℕ) → m < j → test (get_or ps m d) ≡ false)
        → (m : ℕ) → m < suc j
        → test (get_or (p ∷ ps) m d) ≡ false
    first_fails p ps j f before zero h = f
    first_fails p ps j f before (suc m) h = before m (omega arith)

-- A failed peer that still has its agent is reported on, although a later slot has a connected one, when
-- the diagnostics are asked for the first connected peer.
pub failed_peer_reported :
    (info : ℕ → IceInfo) (agent : ℕ) (s : Session) (p : Peer) (ps : List Peer)
    → s.engine.peers ≡ p ∷ ps
    → p.state ≡ failed
    → p.ice_agent ≡ some agent
    → get_net_stats info none s ≡ (SessionError.ok, stats_of (info agent))
unfolding get_net_stats first_slot
failed_peer_reported info agent s p ps e f a = rw (e, f, a) refl
