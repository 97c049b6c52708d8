-- ===== src/Session/Stats.antt =====
-- The diagnostics of src/p2p/src/p2pav.c: which peer is asked, and what is made of its ICE candidates. The
-- figures that xquic reports are only copied and left out. `info` is what libjuice says of an agent.
pub mod Laws
use libp2pchannel.Prelude.{
  ℕ, zero, suc, ◌+◌, Bool, ◌&&◌, Option, none, some, List, [], ◌∷◌, leb, if◌then◌else◌, drop, ℤ,
  pos,
}
use libp2pchannel.Prelude.Text.{codes, strstr, starts_with, snprintf_s, atoi, is_space}
use libp2pchannel.Adapter.{rank}
use libp2pchannel.Peer.{Peer, is_set}
use libp2pchannel.Engine.{peer_at}
use libp2pchannel.Engine.Peers.{find_peer}
use libp2pchannel.Session.{Session, SessionError, Timing}
use libp2pchannel.Session.Life.{split_last}

-- `p2p_ice_info_t`
pub record IceInfo : Type 0 where
  pub local_cand : List ℕ
  pub remote_cand : List ℕ
  pub local_addr : List ℕ
  pub remote_addr : List ℕ

-- The zeroed information, and `p2p_get_peer_ice_info`.
abbrev pub no_info : IceInfo
no_info = record { local_cand = []; remote_cand = []; local_addr = []; remote_addr = [] }

abbrev pub ice_info_of : (ℕ → IceInfo) → Peer → Option IceInfo
ice_info_of info p = elim p.ice_agent [ none ↦ none | some agent ↦ some (info agent) ]

-- The first slot for which `test` holds.
unfoldable pub first_slot : (Peer → Bool) → ℕ → List Peer → Option ℕ
first_slot test i [] = none
first_slot test i (p ∷ ps) =
    let rest = first_slot test (i + 1) ps in if test p then some i else rest

-- `state >= ICE_CONNECTED && ice_agent`
abbrev pub is_up : Peer → Bool
is_up p = leb 3 (rank p.state) && is_set p.ice_agent

-- The peer that is asked: the named one, or the first that passes the test.
abbrev pub asked_peer : (Peer → Bool) → Option (List ℕ) → Session → Option ℕ
asked_peer test none s = first_slot test 0 s.engine.peers
asked_peer test (some peer_id) s = find_peer 0 peer_id s.engine.peers

-- The error when there is none.
abbrev pub missing : Option (List ℕ) → SessionError
missing none = SessionError.not_connected
missing (some peer_id) = SessionError.peer_not_found

-- `p2pav_path_type_t`
pub data PathType : Type 0 where
  unknown direct relay : PathType

-- What follows the first `typ ` of a candidate.
abbrev pub after_typ : List ℕ → Option (List ℕ)
after_typ cand = elim (strstr cand (codes "typ ")) [ none ↦ none | some rest ↦ some (drop 4 rest) ]

-- The type of the path and of the candidate, by the local candidate.
unfoldable pub path_of : List ℕ → PathType × List ℕ
path_of cand = elim (after_typ cand) [
  | none ↦ (unknown, [])
  | some typ ↦
      if starts_with (codes "relay") typ
      then (relay, codes "relay")
      else if starts_with (codes "host") typ
      then (direct, codes "host")
      else if starts_with (codes "srflx") typ
      then (direct, codes "srflx")
      else if starts_with (codes "prflx") typ
      then (direct, codes "prflx")
      else (direct, [])
]

-- `p2pav_net_stats_t`, less the figures of xquic
pub record NetStats : Type 0 where
  pub path_type : PathType
  pub ice_type : List ℕ
  pub local_address : List ℕ
  pub remote_address : List ℕ

abbrev pub stats_of : IceInfo → NetStats
stats_of i = record {
  path_type = (path_of i.local_cand).0;
  ice_type = (path_of i.local_cand).1;
  local_address = snprintf_s 64 i.local_addr;
  remote_address = snprintf_s 64 i.remote_addr;
}

-- `p2pav_get_net_stats`
unfoldable pub get_net_stats : (ℕ → IceInfo) → Option (List ℕ) → Session → SessionError × NetStats
unfolding path_of
get_net_stats info peer_id s = elim (asked_peer is_up peer_id s) [
  | none ↦ (missing peer_id, stats_of no_info)
  | some i ↦ (SessionError.ok, stats_of (get_or_none (ice_info_of info (peer_at s.engine i))))
]
  where
    get_or_none : Option IceInfo → IceInfo
    get_or_none none = no_info
    get_or_none (some i) = i

-- `p2pav_get_timing`
abbrev pub get_timing : Session → Timing
get_timing s = s.timing

-- `sscanf(text, "%ns")`: the first word, of at most `n` bytes.
unfoldable pub word : ℕ → List ℕ → List ℕ
word zero text = []
word (suc n) [] = []
word (suc n) (c ∷ cs) = let rest = word n cs in if is_space c then [] else c ∷ rest

unfoldable pub skip_spaces : List ℕ → List ℕ
skip_spaces [] = []
skip_spaces (c ∷ cs) = let rest = skip_spaces cs in if is_space c then rest else c ∷ cs

-- One entry of `p2pav_ice_candidates_t`
pub record IceCandidate : Type 0 where
  pub candidate_type : List ℕ
  pub address : List ℕ
  pub port : ℤ

-- The entry for one side, if libjuice has selected a candidate; the address is `host:port`.
unfoldable pub candidate_of : List ℕ → List ℕ → Option IceCandidate
unfolding word skip_spaces
candidate_of [] addr = none
candidate_of (c ∷ cand) addr =
    let typ = elim (after_typ (c ∷ cand)) as (λ x. List ℕ) [
      | none ↦ []
      | some t ↦ word 15 (skip_spaces t)
    ] in
    elim (split_last b':' (snprintf_s 64 addr)) [
      | none ↦ some (record { candidate_type = typ; address = snprintf_s 64 addr; port = pos 0 })
      | some (host, number) ↦
          some (record { candidate_type = typ; address = host; port = atoi number })
    ]

-- `p2pav_get_ice_candidates`, for a caller that asks for both sides
unfoldable pub get_ice_candidates :
    (ℕ → IceInfo)
    → Option (List ℕ)
    → Session
    → SessionError × Option IceCandidate × Option IceCandidate
unfolding candidate_of
get_ice_candidates info peer_id s = elim (asked_peer (λ p. is_set p.ice_agent) peer_id s) [
  | none ↦ (missing peer_id, none, none)
  | some i ↦ elim (ice_info_of info (peer_at s.engine i)) [
    | none ↦ (SessionError.not_connected, none, none)
    | some x ↦ (
      SessionError.ok,
      candidate_of x.local_cand x.local_addr,
      candidate_of x.remote_cand x.remote_addr,
    )
  ]
]

-- `p2pav_set_net_stats_callback`; a thread that ran is joined first.
abbrev pub set_net_stats_callback : Bool → Session → Session
set_net_stats_callback cb s = record s { stats_running = cb && s.session_running }
