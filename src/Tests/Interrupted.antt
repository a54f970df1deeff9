-- ===== src/Tests/Interrupted.antt =====
-- The loop of loop.h under an old `EINTR`, at a concrete network.
use sponsoryeet.Prelude.{◌≡◌, refl, none, [], ℤ, pos, true}
use sponsoryeet.State.{Matcher, Os}
use sponsoryeet.Loop.Serve.{ErrorNumbers, serve}
use sponsoryeet.Loop.Serve.Interrupted.{Sticky, serve-idle}
use sponsoryeet.Tests.Toy.{World, seconds, system, plain}
use sponsoryeet.Tests.Messages.{conn, start, machine}
use sponsoryeet.Tests.Discovery.{network}

abbrev pub numbers : ErrorNumbers
numbers = record { etimedout = 110; ebadmsg = 74; econnreset = 104 }

abbrev pub nothing_matches : Matcher ℤ World
nothing_matches = record {
  regex_search = λ pattern text. none;
  regex_search_all = λ pattern text. [];
  strtod = λ text w. ((pos 0, 0), w);
  erange = 34;
  clear_errno = λ w. (tt, w);
  is_finite = λ d. true;
}

-- `errno` is 4 from the start, and every `select` succeeds.
abbrev interrupted : Os World
interrupted = record system { errno = λ w. 4 }

interrupted-Sticky : Sticky interrupted network
interrupted-Sticky = record {
  time_keeps = λ w h. refl;
  running_keeps = λ w h. refl;
  select_keeps = λ fd w h. refl;
}

serve-idle_example :
    (serve seconds interrupted nothing_matches plain network numbers true 7 conn machine).1.globals
    ≡ start
serve-idle_example =
    serve-idle seconds interrupted nothing_matches plain network numbers true interrupted-Sticky 7
      conn machine refl
