-- ===== src/Tests/Slots.antt =====
-- The peer table and the loops of the engine thread at concrete inputs.
use libp2pchannel.Prelude.{
  ℕ, ◌≡◌, ◌<◌, refl, true, false, some, none, List, [], ◌∷◌, ◌++◌, arith, length, if◌then◌else◌,
  Option, pos, ◌==◌,
}
use libp2pchannel.Prelude.Text.{bytes_eq}
use libp2pchannel.Adapter.{
  map_juice_state, IceState, publisher, ice_connected, quic_connected, JuiceState, max_subscribers,
}
use libp2pchannel.PacketQueue.{destroy, count, PacketQueue}
use libp2pchannel.PacketQueue.Inv.{IsValid}
use libp2pchannel.PacketQueue.Refine.{contents}
use libp2pchannel.Peer.{Peer, Callbacks, fresh_peer, finish_recv, main_logic}
use libp2pchannel.Engine.{with_peer, fresh_peers, Engine, peer_at}
use libp2pchannel.Engine.Loops.{
  process_continue_send, process_quic_start, process_quic_restart, process_manual_idle_check,
  process_recv_queue,
}
use libp2pchannel.Engine.Peers.{
  juice_config, update_turn, deferred_removals, find_free, add_at, add_peer, remove_peer, find_peer,
}
use libp2pchannel.Engine.Peers.Laws.{Added, add_peer-Added}
use libp2pchannel.Engine.Timer.{set_event_timer}
use libp2pchannel.Engine.Laws.{remove_peer-strands, deliveries, process_recv_queue-drains}

abbrev pub no_callbacks : Callbacks
no_callbacks = record {
  ice_state = false;
  ice_candidate = false;
  ice_gathering_done = false;
  quic_connected = false;
  quic_closed = false;
  data_recv = false;
  ice_restart_needed = false;
  bitrate_change = false;
}

-- One packet for slot 1.
abbrev pub one_packet : PacketQueue
one_packet = record {
  buf = record { bytes = 9 ∷ 9 ∷ []; size = 2; recv_time_us = 40; agent_idx = pos 1 } ∷ [];
  capacity = 1;
  head = 0;
  tail = 0;
  count = 1;
}

one_packet-IsValid : IsValid one_packet
one_packet-IsValid = record {
  positive = omega arith;
  storage = refl;
  head_in = omega arith;
  tail_is = refl;
  count_in = omega arith;
}

-- Two peers: slot 0 waits to continue sending, slot 1 has a connection that has long been silent.
abbrev pub sending : Peer
sending = record (fresh_peer 0) {
  state = ice_connected;
  ice_agent = some 5;
  needs_continue_send = true;
}

abbrev silent : Peer
silent = record (fresh_peer 1) {
  state = quic_connected;
  ice_agent = some 6;
  cid = some 8;
  xqc_conn = some 8;
  last_ice_recv_us = 10;
}

abbrev table : List Peer
table =
    sending
    ∷ silent
    ∷ fresh_peer 2
    ∷ fresh_peer 3
    ∷ fresh_peer 4
    ∷ fresh_peer 5
    ∷ fresh_peer 6
    ∷ fresh_peer 7
    ∷ fresh_peer 8
    ∷ fresh_peer 9
    ∷ []

abbrev pub engine : Engine
engine = record {
  host = record { role = publisher; callbacks = no_callbacks; has_xqc_engine = true };
  peers = table;
  peer_count = 2;
  recv_queue = one_packet;
  next_wakeup_us = 0;
  running = true;
  stun_host = [];
  stun_port = 0;
  turn_host = [];
  turn_port = 0;
  turn_username = [];
  turn_password = [];
  enable_tcp = false;
}

abbrev name : List ℕ
name = b'b' ∷ []

added_two : (add_peer name (some 7) true 50 engine).1 ≡ some 2
unfolding add_peer find_free add_at fresh_peer
added_two = refl

not_there : find_peer 0 name engine.peers ≡ none
unfolding find_peer fresh_peer bytes_eq
not_there = refl

refused : (add_peer name none true 50 engine).1 ≡ none
unfolding add_peer find_free add_at fresh_peer
refused = refl

add_peer-Added_example :
    (agent : ℕ) × (◌≡◌ {A = Option ℕ} (some 7) (some agent))
    × Added name engine (add_peer name (some 7) true 50 engine).0 agent 50 2
    × (2 < max_subscribers)
add_peer-Added_example = add_peer-Added name (some 7) true 50 2 engine added_two

remove_peer-strands_example :
    let eng' = (remove_peer (pos 0) engine).0 in
    (peer_at (process_quic_start (λ i. true) (λ i. some 3) eng').0 1 ≡ silent)
    × (peer_at (process_continue_send eng').0 1 ≡ silent)
    × (peer_at (process_quic_restart (λ a. JuiceState.completed) (λ i. true) (λ i. some 3) eng').0 1
        ≡ silent)
    × (peer_at (process_manual_idle_check 90000000 eng').0 1 ≡ silent)
remove_peer-strands_example =
    remove_peer-strands 1 0 90000000 (λ a. JuiceState.completed) (λ i. true) (λ i. some 3) engine
      refl (omega arith) (omega arith)

process_recv_queue-drains_example :
    let (eng', es) = process_recv_queue engine in
    let ds = deliveries engine.peers (contents one_packet) in
    (contents eng'.recv_queue ≡ [])
    × (es ≡ (if length ds == 0 then [] else ds ++ (finish_recv ∷ main_logic ∷ [])))
    × (eng'.peers ≡ table)
process_recv_queue-drains_example = process_recv_queue-drains engine one_packet-IsValid

abbrev planned : ℕ
planned = 7500

-- Runs of the remaining operations of the table, the clock and the packet queue.
no_user_session : with_peer engine none (λ p. (p, [])) ≡ (engine, [])
unfolding with_peer
no_user_session = refl

ten_slots : length (fresh_peers 0 10) ≡ 10
unfolding fresh_peers
ten_slots = refl

no_servers : (juice_config engine).stun ≡ none
unfolding juice_config
no_servers = refl

turn_kept : (update_turn none 0 none none engine).turn_host ≡ []
unfolding update_turn
turn_kept = refl

none_deferred : deferred_removals 0 10 engine ≡ (engine, [])
unfolding deferred_removals fresh_peer
none_deferred = refl

timer_set : (set_event_timer 9000 500 engine).next_wakeup_us ≡ 9500
unfolding set_event_timer
timer_set = refl

emptied : (destroy (some one_packet) ≡ some (record one_packet { buf = [] })) × (count none ≡ 0)
unfolding destroy count
emptied = (refl, refl)

restarted : map_juice_state JuiceState.unknown ≡ IceState.disconnected
unfolding map_juice_state
restarted = refl
