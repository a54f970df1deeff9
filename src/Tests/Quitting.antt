-- ===== src/Tests/Quitting.antt =====
-- A key that ends the program, at a concrete network.
use sponsoryeet.Prelude.{◌≡◌, refl, true, false, not, some, pos, ltb_ℤ, arith}
use sponsoryeet.Mdns.Packet.{request_packet, parse_packet, has_response}
use sponsoryeet.Mdns.Query.{
  Net, open_socket, send_request, query, find_chromecast, with_options, bind_and_join, send_data,
  receive, query_round, go_on, query_loop, judge,
}
use sponsoryeet.Util.{string_split}
use sponsoryeet.Connection.{open_connection, connect, close_connection, write}
use sponsoryeet.Chromecast.{
  send_simple, send_message, outgoing, namespace_text, message_text, decimal,
}
use sponsoryeet.Cast.Message.{out_content, size_content}
use sponsoryeet.Loop.Position.{current_position}
use sponsoryeet.Loop.Serve.{loop, resume, serve_round, after_select}
use sponsoryeet.Program.{turn, turns, after_turn}
use sponsoryeet.Program.Quit.{turns_quit}
use sponsoryeet.Tests.Toy.{World, seconds, system, plain}
use sponsoryeet.Tests.Messages.{machine}
use sponsoryeet.Tests.Discovery.{network}
use sponsoryeet.Tests.Interrupted.{numbers, nothing_matches}
use sponsoryeet.Tests.Terminal.{terminal, few}

-- A network with a device, and the key q once it is connected.
abbrev quitting : Net World
quitting = record network {
  select = λ fd w.
      (record { count = pos 1; stdin = ltb_ℤ fd (pos 5); socket = not (ltb_ℤ fd (pos 5)) }, w);
  getchar = λ w. (pos b'q', w);
}

key_pressed :
    (turns seconds system nothing_matches plain quitting numbers terminal true few 1 0
      machine).1.globals.running
    ≡ false
unfolding turns after_turn turn find_chromecast open_socket send_request query request_packet
    with_options bind_and_join send_data receive query_round go_on query_loop judge string_split
    parse_packet has_response loop open_connection connect send_simple send_message write
    out_content size_content outgoing namespace_text message_text decimal close_connection resume
    serve_round after_select current_position
key_pressed = refl

turns_quit_example :
    (turns seconds system nothing_matches plain quitting numbers terminal true few 3 0 machine).0
    ≡ some 0
turns_quit_example =
    turns_quit seconds system nothing_matches plain quitting numbers terminal true few 1 3 0 machine
      (omega arith) refl key_pressed
