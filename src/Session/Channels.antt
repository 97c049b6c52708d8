-- ===== src/Session/Channels.antt =====
-- Data channels of src/p2p/src/p2pav.c: opening, closing and sending. A channel's number is a natural
-- number: the counter starts at 1, and its overflow after 2^31 openings is not modelled.
pub mod Laws
pub mod Use
use libp2pchannel.Prelude.{
  ℕ, ◌+◌, ◌%◌, ◌^◌, Bool, true, false, not, ◌&&◌, Option, none, some, List, [], ◌∷◌, leb, ◌==◌,
  if◌then◌else◌, length, get_or, set,
}
use libp2pchannel.Prelude.Text.{snprintf_s}
use libp2pchannel.Adapter.FrameType
use libp2pchannel.Peer.{success, failure}
use libp2pchannel.Peer.Send.{send_data_via_quic}
use libp2pchannel.Engine.{peer_at, set_peer}
use libp2pchannel.Engine.Peers.{find_peer}
use libp2pchannel.Session.{
  Session, SessionError, Channel, Notice, channel_opened, can_send, no_channel, max_peers,
  notify_if,
}
use libp2pchannel.Session
use libp2pchannel.Session.Media.{World}

-- `p2pav_data_channel_config_t`, less the priority, which nothing reads; the label may be NULL.
pub record ChannelConfig : Type 0 where
  pub label : Option (List ℕ)
  pub reliability : ℕ

-- The first channel that is not active.
unfoldable pub free_channel : ℕ → List Channel → Option ℕ
free_channel i [] = none
free_channel i (c ∷ cs) = let rest = free_channel (i + 1) cs in if c.active then rest else some i

-- The first active channel of a number.
unfoldable pub find_channel : ℕ → ℕ → List Channel → Option ℕ
find_channel i ch_id [] = none
find_channel i ch_id (c ∷ cs) =
    let rest = find_channel (i + 1) ch_id cs in if c.active && c.id == ch_id then some i else rest

abbrev pub channel_at : Session → ℕ → Channel
channel_at s i = get_or s.data_channels i no_channel

-- The entry that `p2pav_data_open` fills; without a label it keeps the one that it had.
abbrev pub opened : ℕ → ℕ → ChannelConfig → Channel → Channel
opened id peer_index config c = record c {
  active = true;
  id = id;
  peer_index = peer_index;
  reliability = config.reliability;
  label = elim config.label [ none ↦ c.label | some l ↦ snprintf_s 64 l ];
}

-- `p2pav_data_open` for the peer of slot `i`, once it has looked for a free entry.
abbrev pub open_at :
    Option ℕ → ℕ → List ℕ → ChannelConfig → Session → Session × Option ℕ × List Notice
open_at none i peer_id config s = (s, none, [])
open_at (some k) i peer_id config s = (
  record s {
    data_channels =
        set s.data_channels k
          (opened s.next_channel_id (peer_at s.engine i).index config (channel_at s k));
    next_channel_id = s.next_channel_id + 1;
  },
  some s.next_channel_id,
  notify_if s.data_ch_cb (channel_opened peer_id s.next_channel_id),
)

-- `p2pav_data_open`; `none` is the result -1, and a NULL argument is not modelled.
unfoldable pub data_open : List ℕ → ChannelConfig → Session → Session × Option ℕ × List Notice
data_open peer_id config s = elim (find_peer 0 peer_id s.engine.peers) [
  | none ↦ (s, none, [])
  | some i ↦ open_at (free_channel 0 s.data_channels) i peer_id config s
]

-- `p2pav_data_close`
unfoldable pub data_close : ℕ → Session → Session
data_close ch_id s = elim (find_channel 0 ch_id s.data_channels) [
  | none ↦ s
  | some k ↦ record s {
    data_channels = set s.data_channels k (record (channel_at s k) { active = false });
  }
]

-- The end of `p2pav_data_send`, to the peer of slot `i`; the length is cast to `uint32_t`.
unfoldable pub send_message : World → ℕ → List ℕ → Session → Session × SessionError
send_message w i bytes s =
    let p = peer_at s.engine i in
    let (p', wakeup, st) =
      send_data_via_quic s.engine.host w.now FrameType.data_msg 0 s.data_seq w.now bytes
        (length bytes % 2 ^ 32) (w.allocated p.index) p s.engine.next_wakeup_us in
    (
      record s {
        data_seq = (s.data_seq + 1) % 2 ^ 32;
        engine = record (set_peer s.engine i p') { next_wakeup_us = wakeup };
      },
      elim st [ success ↦ Session.ok | failure ↦ Session.internal ],
    )

-- `p2pav_data_send`; NULL data is like none.
unfoldable pub data_send : World → ℕ → List ℕ → Session → Session × SessionError
unfolding send_message
data_send w ch_id [] s = (s, Session.invalid_param)
data_send w ch_id (byte ∷ bytes) s =
    if not s.session_running
    then (s, Session.not_connected)
    else elim (find_channel 0 ch_id s.data_channels) [
      | none ↦ (s, Session.invalid_param)
      | some k ↦
          let i = (channel_at s k).peer_index in
          if leb max_peers i
          then (s, Session.peer_not_found)
          else if not (can_send (peer_at s.engine i))
          then (s, Session.not_connected)
          else send_message w i (byte ∷ bytes) s
    ]

-- `p2pav_data_set_recv_callback` and `p2pav_data_set_channel_callback`
abbrev pub data_set_recv_callback : Bool → Session → Session
data_set_recv_callback cb s = record s { data_recv_cb = cb }

abbrev pub data_set_channel_callback : Bool → Session → Session
data_set_channel_callback cb s = record s { data_ch_cb = cb }
