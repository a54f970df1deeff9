-- ===== src/Tests/Accounts.antt =====
-- What the whole program takes and gives back, at a concrete network.
use sponsoryeet.Prelude.{◌≡◌, refl, true, some, ltb, length, ℤ, pos, arith}
use sponsoryeet.State.{Machine}
use sponsoryeet.State.Bag.{descriptor, one, both, without-both}
use sponsoryeet.Mdns.Packet.{request_packet, parse_packet, has_response}
use sponsoryeet.Mdns.Query.{
  Net, open_socket, send_request, query, find_chromecast, with_options, bind_and_join, send_data,
  receive, query_round, go_on, query_loop, judge,
}
use sponsoryeet.Util.{string_split}
use sponsoryeet.Connection.{open_connection, connect, close_connection, write}
use sponsoryeet.Chromecast.{
  send_simple, send_message, outgoing, namespace_text, message_text, decimal,
}
use sponsoryeet.Cast.Message.{out_content, size_content}
use sponsoryeet.Loop.Serve.{loop}
use sponsoryeet.Program.{turn, run}
use sponsoryeet.Program.Released.{Counts, run-holds}
use sponsoryeet.Tests.Toy.{World, seconds, plain}
use sponsoryeet.Tests.Messages.{machine}
use sponsoryeet.Tests.Discovery.{network}
use sponsoryeet.Tests.Interrupted.{numbers, nothing_matches}
use sponsoryeet.Tests.Library.{counting, counting-Holds}
use sponsoryeet.Tests.Terminal.{terminal, few}

-- A network with a device, on which the program is stopped once it has sent three texts.
abbrev stopped : Net World
stopped = record network {
  running = λ w. (ltb (length w.sent) 3, w);
  datagram_socket = λ w. (pos 5, record w { handles = both (one (descriptor (pos 5))) w.handles });
}

stopped-Counts : Counts counting nothing_matches stopped terminal (λ w. w.handles)
stopped-Counts = record {
  holds = counting-Holds;
  spares = record { times = λ w. refl; converts = λ text w. refl; clears = λ w. refl };
  waits = record { runs = λ w. refl; selects = λ fd w. refl; keys = λ w. refl };
  sockets = record {
    new = λ w. refl;
    closes = λ fd w n h. without-both (descriptor fd) w.handles n h;
    options = λ fd o w. refl;
    binds = λ fd w. refl;
    sends = λ fd text w. refl;
    selects = λ fd w. refl;
    keys = λ w. refl;
    receives = λ fd room w. refl;
    runs = λ w. refl;
    times = λ w. refl;
  };
  at_terminal = record {
    gets = λ w. refl;
    sets = λ t w. refl;
    signals = λ name w. refl;
    sleeps = λ n w. refl;
  };
}

asks : (fd : ℤ) (s : Machine ℤ World) → (send_request counting stopped fd s).0 ≡ true
unfolding send_request send_data request_packet string_split
asks fd s = ground arith

run_stops :
    (run seconds counting nothing_matches plain stopped numbers terminal true few machine).0
    ≡ some 0
unfolding run turn find_chromecast open_socket send_request query request_packet with_options
    bind_and_join send_data receive query_round go_on query_loop judge string_split parse_packet
    has_response loop open_connection connect send_simple send_message write out_content
    size_content outgoing namespace_text message_text decimal close_connection
run_stops = refl

run-holds_example :
    (run seconds counting nothing_matches plain stopped numbers terminal true few
      machine).1.world.handles
    ≡ machine.world.handles
run-holds_example =
    run-holds seconds counting nothing_matches plain stopped numbers terminal true few
      (λ w. w.handles) stopped-Counts asks machine 0 run_stops
