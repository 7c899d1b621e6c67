-- ===== src/Channel/Witnesses.antt =====
-- core/Channel.go: the theorems at a channel between two nodes.
use majula.Prelude.{◌≡◌, refl, arith, [], ◌∷◌}
use majula.Prelude.Dict.{lookup}
use majula.Prelude.Int.{pos}
use majula.Mesh.{MessageType}
use majula.Mesh.Receive.{decimal}
use majula.Rpc.Services.{IsMap}
use majula.Channel.{Channel, worker_send, link_update, cost_message, on_recv}
use majula.Channel.Cost.{on_recv-cost}

abbrev here : Channel
here = record {
  id = "n-1";
  host = "n";
  channel_peers = ("m", record { last_recv_time = 5; last_send_time = 5 }) ∷ [];
  out = [];
}

abbrev there : Channel
there = record { id = "m-1"; host = "m"; channel_peers = []; out = [] }

on_recv-cost_example :
    ((on_recv 1 8 "n" (cost_message MessageType.cost_request (decimal 7) "m" "n") there).out
      ≡ worker_send "n" (cost_message MessageType.cost_ack (decimal 7) "n" "m") ∷ [])
    × ((on_recv 3 12 "m" (cost_message MessageType.cost_ack (decimal 7) "n" "m") here).out
        ≡ link_update
            (record { source = "n"; target = "m"; cost = pos 5; version = 3; channel = "n-1" })
          ∷ [])
on_recv-cost_example = on_recv-cost 7 8 12 3 1 here there (omega arith) (omega arith) refl refl

here-IsMap : IsMap here.channel_peers
unfolding IsMap lookup
here-IsMap = (refl, tt)
