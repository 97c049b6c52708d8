-- ===== src/Tests/Engines.antt =====
-- Initialisation, arrival and destruction of an engine at concrete inputs.
use libp2pchannel.Prelude.{replicate, ◌≡◌, refl, true, false, some, none, [], ◌∷◌, arith}
use libp2pchannel.Adapter.{publisher}
use libp2pchannel.PacketQueue.{zero_packet, PacketQueue}
use libp2pchannel.PacketQueue.Inv.{IsValid}
use libp2pchannel.Peer.{fresh_peer, finish_recv, main_logic}
use libp2pchannel.Engine.{Engine}
use libp2pchannel.Engine.Loops.{process_recv_queue}
use libp2pchannel.PacketQueue.{init}
use libp2pchannel.Peer.{packet_process, juice_destroy}
use libp2pchannel.Engine.Life.Laws.{ice_on_recv-delivered}
use libp2pchannel.Engine.Life.{
  EngineConfig, engine_init, set_up, ice_on_recv, engine_start, engine_stop, engine_destroy,
}
use libp2pchannel.Tests.Slots.{no_callbacks, one_packet, engine}

abbrev config : EngineConfig
config = record {
  role = publisher;
  callbacks = no_callbacks;
  stun_server_host = some (b's' ∷ []);
  stun_server_port = 0;
  turn_server_host = none;
  turn_server_port = 0;
  turn_username = none;
  turn_password = none;
  enable_tcp = true;
}

abbrev new_queue : PacketQueue
new_queue = record {
  buf = replicate 2048 zero_packet;
  capacity = 2048;
  head = 0;
  tail = 0;
  count = 0;
}

initialised : engine_init config true true ≡ some (set_up config new_queue)
unfolding engine_init init
initialised = refl

-- The engine with room for one packet.
abbrev drained : Engine
drained = record engine { recv_queue = record one_packet { count = 0 } }

drained-IsValid : IsValid drained.recv_queue
drained-IsValid = record {
  positive = omega arith;
  storage = refl;
  head_in = omega arith;
  tail_is = refl;
  count_in = omega arith;
}

ice_on_recv-delivered_example :
    (process_recv_queue (ice_on_recv 1 90 (4 ∷ 5 ∷ []) drained)).1
    ≡ packet_process 1 (4 ∷ 5 ∷ []) 90 ∷ finish_recv ∷ main_logic ∷ []
unfolding fresh_peer
ice_on_recv-delivered_example =
    ice_on_recv-delivered 1 90 (4 ∷ 5 ∷ []) drained drained-IsValid refl refl (omega arith) refl
      (omega arith) (omega arith) (omega arith)

-- Starting, stopping and destroying an engine.
stopped :
    ((engine_start true engine).0 ≡ engine)
    × ((engine_stop engine).running ≡ false)
    × ((engine_destroy engine).1 ≡ juice_destroy 5 ∷ juice_destroy 6 ∷ [])
unfolding engine_start engine_stop engine_destroy fresh_peer
stopped = (refl, refl, refl)
