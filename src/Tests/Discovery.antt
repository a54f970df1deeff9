-- ===== src/Tests/Discovery.antt =====
-- The discovery of mdns.h at a concrete network.
use sponsoryeet.Prelude.{
  ℕ, not, if◌then◌else◌, ◌≡◌, ◌≢◌, refl, true, false, some, [], ◌∷◌, ◌++◌, pos, negsuc, length,
  length-take, drop, take, Bytes, arith,
}
use sponsoryeet.State.{Address, Os}
use sponsoryeet.State.Bag.{descriptor, empty, one, both, without, without-both}
use sponsoryeet.Mdns.Packet.{query_header, query_footer, request_packet, parse_packet, has_response}
use sponsoryeet.Mdns.Packet.RoundTrip.{encode}
use sponsoryeet.Util.{string_split}
use sponsoryeet.Mdns.Query.{
  Datagram, Net, Search, found, query_loop, find_chromecast, open_socket, send_request, query,
  with_options, bind_and_join, send_data, receive, query_round, go_on, judge, is_negative,
}
use sponsoryeet.Mdns.Query.Found.{Arrives, with_device, query_loop-found}
use sponsoryeet.Mdns.Query.Starved.{FitsBuffer, query_loop-ne-found}
use sponsoryeet.Mdns.Query.Released.{Sockets, left_open, find_chromecast-holds}
use sponsoryeet.Tests.Toy.{World, system}
use sponsoryeet.Tests.Packets.{labels, answer_header, answer_header-IsResponse, query_bytes}
use sponsoryeet.Tests.Messages.{machine}

abbrev pub device : Address
device = record { host = 3232235777; port = 5353 }

abbrev request : Bytes
request = query_header ++ (11 ∷ drop 1 (encode labels) ++ 0 ∷ query_footer)

abbrev answer : Bytes
answer = answer_header ++ (drop 12 request ++ (192 ∷ 12 ∷ []))

abbrev datagram : Datagram
datagram = record { size = pos (length answer); bytes = answer; is_inet = true; sender = device }

-- One device, which always answers.
abbrev pub network : Net World
network = record {
  running = λ w. (true, w);
  datagram_socket = λ w. (pos 5, w);
  set_option = λ fd option w. (pos 0, w);
  bind = λ fd w. (pos 0, w);
  send_to = λ fd text w. (pos (length text), record w { sent = w.sent ++ text ∷ [] });
  select = λ fd w. (record { count = pos 1; stdin = false; socket = true }, w);
  getchar = λ w. (negsuc 0, w);
  recv_from = λ fd room w. (
    record {
      size = pos (length (take room answer));
      bytes = take room answer;
      is_inet = true;
      sender = device;
    },
    w,
  );
  eintr = 4;
}

abbrev searching_from : ℕ → Search
searching_from n = record { capacity = n; end_time = 1010; address = record { host = 0; port = 0 } }

network-FitsBuffer : FitsBuffer network
network-FitsBuffer fd room w = let size = length-take room answer in omega arith

datagram-Arrives : Arrives system network (pos 5) (searching_from 512) machine.world datagram
datagram-Arrives = record {
  in_time = refl;
  selected = refl;
  uninterrupted = refl;
  received = refl;
  size = refl;
  inet = refl;
}

query_loop-found_example :
    (query_loop system network 1 4 (pos 5) (searching_from 512) machine).0
    ≡ found (with_device (searching_from 512) datagram)
query_loop-found_example =
    query_loop-found system network 0 4 (pos 5) (searching_from 512) machine datagram answer_header
      (192 ∷ 12 ∷ []) datagram-Arrives query_bytes answer_header-IsResponse refl (omega arith)

query_loop-ne-found_example :
    (query_loop system network 9 4 (pos 5) (searching_from 12) machine).0
    ≢ found (with_device (searching_from 512) datagram)
query_loop-ne-found_example =
    query_loop-ne-found system network network-FitsBuffer 9 4 (pos 5) (searching_from 12) machine
      (omega arith) (with_device (searching_from 512) datagram)

-- The port is that of the cast protocol.
device_found :
    (find_chromecast system network 2 4 (record { host = 0; port = 0 }) machine).0
    ≡ some (true, record { host = 3232235777; port = 8009 })
unfolding find_chromecast open_socket send_request query request_packet parse_packet has_response
    with_options bind_and_join send_data receive query_round go_on query_loop judge string_split
device_found = refl

-- A system without sockets.
abbrev pub no_sockets : Net World
no_sockets = record network { datagram_socket = λ w. (negsuc 0, w) }

-- A network that keeps account of its sockets, and on which nothing can be sent.
abbrev counting : Os World
counting = record system {
  close = λ fd w. (tt, record w { handles = without (descriptor fd) w.handles });
}

abbrev mute : Net World
mute = record network {
  datagram_socket = λ w. (pos 5, record w { handles = both (one (descriptor (pos 5))) w.handles });
  send_to = λ fd text w. (negsuc 0, w);
}

mute-Sockets : Sockets counting mute (λ w. w.handles)
mute-Sockets = record {
  new = λ w. refl;
  closes = λ fd w n h. without-both (descriptor fd) w.handles n h;
  options = λ fd o w. refl;
  binds = λ fd w. refl;
  sends = λ fd text w. refl;
  selects = λ fd w. refl;
  keys = λ w. refl;
  receives = λ fd room w. refl;
  runs = λ w. refl;
  times = λ w. refl;
}

find_chromecast-holds_example :
    let (fd, opened) = open_socket counting mute machine in
    let sent = (send_request counting mute fd opened).0 in
    let (result, after) = find_chromecast counting mute 2 4 device machine in
    after.world.handles
    ≡ both
        (if is_negative fd
          then empty
          else if not sent
          then one (descriptor fd)
          else left_open fd result)
        machine.world.handles
find_chromecast-holds_example =
    find_chromecast-holds counting mute (λ w. w.handles) mute-Sockets 2 4 device machine

socket_leaks :
    (find_chromecast counting mute 2 4 device machine).1.world.handles (descriptor (pos 5)) ≡ 1
unfolding find_chromecast open_socket send_request request_packet with_options bind_and_join
    send_data string_split one
socket_leaks = refl
