-- ===== src/Session/Channels/Laws.antt =====
-- The numbers of the data channels of src/p2p/src/p2pav.c, and the searches for them.
use libp2pchannel.Prelude.{
  ℕ, zero, suc, ◌+◌, ◌≤◌, ◌<◌, ◌≡◌, refl, sym, ap, subst, ◌∙◌, ◌≢◌, inl, inr, Bool, true, false,
  ◌&&◌, Option, none, some, List, [], ◌∷◌, arith, ℕ_discrete, ◌==◌, Bool-cases, Option-cases,
  length, get_or, set, get_or-set_self, get_or-set_ne,
}
use libp2pchannel.Session.{Session, Channel, no_channel}
use libp2pchannel.Engine.Peers.{find_peer}
use libp2pchannel.Session.Channels.{
  ChannelConfig, free_channel, find_channel, channel_at, open_at, data_open, data_close,
}

-- The numbers of active channels were given out, and no two active channels have the same.
pub record IsValid (s : Session) : Type 0 where
  pub given : (i : ℕ) → (channel_at s i).active ≡ true → (channel_at s i).id < s.next_channel_id
  pub unique :
      (i j : ℕ)
      → (channel_at s i).active ≡ true
      → (channel_at s j).active ≡ true
      → (channel_at s i).id ≡ (channel_at s j).id
      → i ≡ j

pub free_channel_found :
    (i k : ℕ) (cs : List Channel)
    → free_channel i cs ≡ some k
    → (j : ℕ) × (k ≡ i + j) × (j < length cs) × ((get_or cs j no_channel).active ≡ false)
unfolding free_channel
free_channel_found i k [] h = cc
free_channel_found i k (c ∷ cs) h = elim (Bool-cases c.active) [
  | inl e ↦
      let (j, a, b, d) = free_channel_found (i + 1) k cs (rw e at h) in
      (suc j, omega arith, omega arith, d)
  | inr e ↦ (0, ground arith, omega arith, e)
]

abbrev pub has_id : ℕ → Channel → Bool
has_id ch_id c = c.active && c.id == ch_id

-- The search finds an entry of the number, and finds one if there is any.
pub find_channel_found :
    (i ch_id k : ℕ) (cs : List Channel)
    → find_channel i ch_id cs ≡ some k
    → (j : ℕ) × (k ≡ i + j) × (j < length cs) × (has_id ch_id (get_or cs j no_channel) ≡ true)
unfolding find_channel
find_channel_found i ch_id k [] h = cc
find_channel_found i ch_id k (c ∷ cs) h = elim (Bool-cases (has_id ch_id c)) [
  | inl e ↦ (0, ground arith, omega arith, e)
  | inr e ↦
      let (j, a, b, d) = find_channel_found (i + 1) ch_id k cs (ground arith) in
      (suc j, omega arith, omega arith, d)
]

pub find_channel-none :
    (i ch_id j : ℕ) (cs : List Channel)
    → find_channel i ch_id cs ≡ none
    → has_id ch_id (get_or cs j no_channel) ≡ false
unfolding find_channel
find_channel-none i ch_id j [] h = refl
find_channel-none i ch_id zero (c ∷ cs) h = ground arith
find_channel-none i ch_id (suc j) (c ∷ cs) h = find_channel-none (i + 1) ch_id j cs (ground arith)

-- With valid channels the search finds just the entry that is active and has the number.
pub find_channel-IsValid :
    (ch_id k : ℕ) {s : Session}
    → IsValid s
    → has_id ch_id (channel_at s k) ≡ true
    → find_channel 0 ch_id s.data_channels ≡ some k
find_channel-IsValid ch_id k {s} v h = elim (Option-cases (find_channel 0 ch_id s.data_channels)) [
  | inl e ↦ ground (arith, find_channel-none 0 ch_id k s.data_channels e)
  | inr (m, e) ↦
      let (j, a, b, d) = find_channel_found 0 ch_id m s.data_channels e in
      let same : j ≡ k = ground (arith, v.unique j k) in e ∙ ap some (omega arith)
]

set_channel-IsValid :
    (k next : ℕ) (c : Channel) {s : Session}
    → IsValid s
    → k < length s.data_channels
    → s.next_channel_id ≤ next
    → (c.active ≡ true → c.id < next)
    → ((j : ℕ) → c.active ≡ true → (channel_at s j).active ≡ true → c.id ≢ (channel_at s j).id)
    → IsValid (record s { data_channels = set s.data_channels k c; next_channel_id = next })
set_channel-IsValid k next c {s} v h le g u =
    let new = get_or-set_self s.data_channels k c no_channel h in
    let old = λ (j : ℕ) (ne : k ≢ j). get_or-set_ne s.data_channels k j c no_channel ne in
    record {
      given = λ i a. elim (ℕ_discrete k i) [
        | yes e ↦
            ground
              (arith, new, g, subst (λ n. get_or (set s.data_channels k c) n no_channel ≡ c) e new)
        | no ne ↦ ground (arith, old i ne, v.given i)
      ];
      unique = λ i j a b e. elim (ℕ_discrete k i) [
        | yes p ↦ elim (ℕ_discrete k j) [
          | yes q ↦ sym p ∙ q
          | no ne ↦ ground (
            arith,
            old j ne,
            u j,
            subst (λ n. get_or (set s.data_channels k c) n no_channel ≡ c) p new,
          )
        ]
        | no ni ↦ elim (ℕ_discrete k j) [
          | yes q ↦ ground (
            arith,
            old i ni,
            u i,
            subst (λ n. get_or (set s.data_channels k c) n no_channel ≡ c) q new,
          )
          | no nj ↦
              v.unique i j (ap (λ (d : Channel). d.active) (sym (old i ni)) ∙ a)
                (ap (λ (d : Channel). d.active) (sym (old j nj)) ∙ b)
                (ap (λ (d : Channel). d.id) (sym (old i ni))
                  ∙ e
                  ∙ ap (λ (d : Channel). d.id) (old j nj))
        ]
      ];
    }

open_at-IsValid :
    (found : Option ℕ) (i : ℕ) (peer_id : List ℕ) (config : ChannelConfig) {s : Session}
    → IsValid s
    → free_channel 0 s.data_channels ≡ found
    → IsValid (open_at found i peer_id config s).0
open_at-IsValid none i peer_id config v e = v
open_at-IsValid (some k) i peer_id config {s} v e =
    let (j, a, b, d) = free_channel_found 0 k s.data_channels e in
    set_channel-IsValid k (s.next_channel_id + 1) _ v (omega arith) (omega arith) (λ h. omega arith)
      (λ j' h h' q. ground (arith, v.given j'))

pub data_open_named :
    (peer_id : List ℕ) (config : ChannelConfig) (i : ℕ) (s : Session)
    → find_peer 0 peer_id s.engine.peers ≡ some i
    → data_open peer_id config s ≡ open_at (free_channel 0 s.data_channels) i peer_id config s
unfolding data_open
data_open_named peer_id config i s e = ground arith

data_open_unknown :
    (peer_id : List ℕ) (config : ChannelConfig) (s : Session)
    → find_peer 0 peer_id s.engine.peers ≡ none
    → data_open peer_id config s ≡ (s, none, [])
unfolding data_open
data_open_unknown peer_id config s e = ground arith

pub data_close_found :
    (ch_id k : ℕ) (s : Session)
    → find_channel 0 ch_id s.data_channels ≡ some k
    → data_close ch_id s ≡ record s {
      data_channels = set s.data_channels k (record (channel_at s k) { active = false });
    }
unfolding data_close
data_close_found ch_id k s e = ground arith

pub data_close_missing :
    (ch_id : ℕ) (s : Session) → find_channel 0 ch_id s.data_channels ≡ none → data_close ch_id s ≡ s
unfolding data_close
data_close_missing ch_id s e = ground arith

-- Opening a channel keeps the channels' numbers valid.
pub data_open-IsValid :
    (peer_id : List ℕ) (config : ChannelConfig) {s : Session}
    → IsValid s
    → IsValid (data_open peer_id config s).0
data_open-IsValid peer_id config {s} v = elim (Option-cases (find_peer 0 peer_id s.engine.peers)) [
  | inl e ↦ rw (data_open_unknown peer_id config s e) v
  | inr (i, e) ↦
      rw (data_open_named peer_id config i s e)
        (open_at-IsValid (free_channel 0 s.data_channels) i peer_id config v refl)
]

-- Closing a channel keeps the channels' numbers valid.
pub data_close-IsValid : (ch_id : ℕ) {s : Session} → IsValid s → IsValid (data_close ch_id s)
data_close-IsValid ch_id {s} v = elim (Option-cases (find_channel 0 ch_id s.data_channels)) [
  | inl e ↦ rw (data_close_missing ch_id s e) v
  | inr (k, e) ↦
      let (j, a, b, d) = find_channel_found 0 ch_id k s.data_channels e in
      rw (data_close_found ch_id k s e) (
        set_channel-IsValid k s.next_channel_id (record (channel_at s k) { active = false }) v
          (omega arith) (omega arith) (λ h. cc) (λ j' h. cc))
]
