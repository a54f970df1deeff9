-- ===== src/Program/Blind.antt =====
-- main.cc after a search that failed, which mdns.h reports as a device found.
use sponsoryeet.Prelude.{ℕ, ◌≡◌, ◌⊎◌, ap, Bool, true, false, if◌then◌else◌, ◌==◌}
use sponsoryeet.Cast.Protobuf.{Protobuf}
use sponsoryeet.Cast.Message.{CastMessage}
use sponsoryeet.State.{Double, Os, Matcher, Machine, ◌>>◌, return, modify, call}
use sponsoryeet.Mdns.Query.{Net, is_negative, open_socket, send_request}
use sponsoryeet.Mdns.Query.Failed.{find_chromecast-failed}
use sponsoryeet.Loop.Serve.{ErrorNumbers}
use sponsoryeet.Program.{Terminal, Rounds, forget, connect_to, judge_search, turn}

module _ {D T W : Type 0} (double : Double D) (os : Os W) (m : Matcher D W)
    (p : Protobuf CastMessage) (net : Net W) (numbers : ErrorNumbers) (terminal : Terminal T W)
    (first : Bool) (rounds : Rounds) where
  -- Where the search begins: the last connection is forgotten, and after an error the program has slept.
  abbrev pub searching_from : ℕ → Machine D W → Machine D W
  searching_from ret s =
      ((modify (forget double) >> (if ret == 0 then return tt else call (terminal.sleep 10))) s).1

  -- If the socket for the search cannot be opened, or the request cannot be sent, the program does not
  -- end with ENOENT: it goes on to connect to port 0 of the address 0.0.0.0.
  pub turn_blind :
      (ret : ℕ) (s : Machine D W)
      → let from = searching_from ret s in
        let (fd, opened) = open_socket os net from in
        let (sent, asked) = send_request os net fd opened in
        (is_negative fd ≡ true) ⊎ (sent ≡ false)
        → turn double os m p net numbers terminal first rounds ret s
          ≡ connect_to double os m p net numbers terminal first rounds
              (record { host = 0; port = 0 })
              (if is_negative fd then opened else asked)
  unfolding turn judge_search
  turn_blind ret s h =
      let from = searching_from ret s in
      ap (λ r. judge_search double os m p net numbers terminal first rounds r.0 r.1)
        (find_chromecast-failed os net rounds.searches rounds.labels (record { host = 0; port = 0 })
          from h)
