-- ===== src/Program/Watched.antt =====
-- main.cc as steps of what is watched.
use sponsoryeet.Prelude.{Bool, false, refl}
use sponsoryeet.Cast.Protobuf.{Protobuf}
use sponsoryeet.Cast.Message.{CastMessage}
use sponsoryeet.State.{Double, Os, Matcher, Machine}
use sponsoryeet.Mdns.Query.{Net}
use sponsoryeet.Loop.Watch.{viewer, Moves, stays, moves, lost, Steps, still, Belongs, Moves-Belongs}
use sponsoryeet.Loop.Watch.Handled.{handle_message-Steps}
use sponsoryeet.Loop.Watch.Served.{Steps-Covers}
use sponsoryeet.Loop.Serve.{ErrorNumbers}
use sponsoryeet.Program.{Terminal, Rounds, run}
use sponsoryeet.Program.Follows.{run-Follows}

module _ {D T W : Type 0} (double : Double D) (os : Os W) (m : Matcher D W)
    (p : Protobuf CastMessage) (net : Net W) (numbers : ErrorNumbers) (terminal : Terminal T W)
    (first : Bool) (rounds : Rounds) where
  -- The moves that lead from the start of the program to where it stands.
  run-Moves :
      (s : Machine D W)
      → Moves os m
          (viewer s.globals)
          (viewer (run double os m p net numbers terminal first rounds s).1.globals)
  run-Moves =
      run-Follows double os m p net numbers terminal first rounds (Steps os m) (Steps-Covers os m)
        (handle_message-Steps double os m p first)
        (λ g. still os m g (record g { running = false }) refl) (λ g. moves stays (lost refl))

  -- However long the program runs, and whatever connections, keys and messages come, the segments that it
  -- keeps stay in step with the video: if at the start there is no video, or the segments are what a
  -- download in some state brings for the video with the categories of the user, then so it is when the
  -- program ends or is cut off, with the categories it has then.
  pub run-Belongs :
      (s : Machine D W)
      → Belongs os m (viewer s.globals)
      → Belongs os m (viewer (run double os m p net numbers terminal first rounds s).1.globals)
  run-Belongs s = Moves-Belongs os m (run-Moves s)
