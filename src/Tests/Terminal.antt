-- ===== src/Tests/Terminal.antt =====
-- The loop of main.cc at concrete networks.
use sponsoryeet.Prelude.{ℕ, ◌≡◌, ◌⊎◌, inl, refl, true, false, some, pos}
use sponsoryeet.Ssl.{null_symbols}
use sponsoryeet.Ssl.Resolved.{Resolved}
use sponsoryeet.Options.{category_flags}
use sponsoryeet.Mdns.Packet.{request_packet}
use sponsoryeet.Mdns.Query.{
  Net, open_socket, send_request, query, find_chromecast, with_options, bind_and_join, send_data,
  receive, query_round, go_on, query_loop, judge,
}
use sponsoryeet.Util.{string_split}
use sponsoryeet.Program.{Terminal, Rounds, connect_to, turn, run, main}
use sponsoryeet.Program.Restored.{HasAttributes, run_restores}
use sponsoryeet.Program.Blind.{searching_from, turn_blind}
use sponsoryeet.Program.Loaded.{main-Resolved}
use sponsoryeet.Tests.Toy.{World, seconds, system, plain}
use sponsoryeet.Tests.Messages.{machine}
use sponsoryeet.Tests.Discovery.{network, no_sockets}
use sponsoryeet.Tests.Interrupted.{numbers, nothing_matches}
use sponsoryeet.Tests.Program.{linker, arguments}

abbrev pub terminal : Terminal ℕ World
terminal = record {
  tcgetattr = λ w. (w.attributes, w);
  tcsetattr = λ t w. (tt, record w { attributes = t });
  quiet = λ t. 0;
  signal = λ name w. (tt, w);
  sleep = λ n w. (tt, w);
  enoent = 2;
  einval = 22;
}

abbrev pub few : Rounds
few = record { connections = 2; messages = 2; searches = 2; labels = 4 }

-- The key `q` is pressed during the search.
abbrev impatient : Net World
impatient = record network {
  select = λ fd w. (record { count = pos 1; stdin = true; socket = false }, w);
  getchar = λ w. (pos 113, w);
}

terminal-HasAttributes : HasAttributes terminal (λ w. w.attributes)
terminal-HasAttributes = record { gets = λ w. refl; sets = λ t w. refl; signals = λ name w. refl }

run_ends :
    (run seconds system nothing_matches plain impatient numbers terminal true few machine).0
    ≡ some 2
unfolding run turn find_chromecast open_socket send_request query request_packet with_options
    bind_and_join send_data receive query_round go_on query_loop judge string_split
run_ends = refl

run_restores_example :
    (run seconds system nothing_matches plain impatient numbers terminal true few
      machine).1.world.attributes
    ≡ 8
run_restores_example =
    run_restores seconds system nothing_matches plain impatient numbers terminal true few
      (λ w. w.attributes) terminal-HasAttributes machine 2 run_ends

turn_blind_example :
    turn seconds system nothing_matches plain no_sockets numbers terminal true few 0 machine
    ≡ connect_to seconds system nothing_matches plain no_sockets numbers terminal true few
        (record { host = 0; port = 0 })
        (searching_from seconds system nothing_matches plain no_sockets numbers terminal true few 0
          machine)
unfolding open_socket
turn_blind_example =
    turn_blind seconds system nothing_matches plain no_sockets numbers terminal true few 0 machine
      (inl refl)

main-Resolved_example :
    let (ret, symbols, after) =
      main seconds system nothing_matches plain network numbers terminal true few linker
        category_flags arguments null_symbols machine in
    Resolved symbols
    ⊎ ((ret ≡ some 1) × (symbols ≡ null_symbols) × (after.globals ≡ machine.globals))
main-Resolved_example =
    main-Resolved seconds system nothing_matches plain network numbers terminal true few linker
      category_flags arguments machine
