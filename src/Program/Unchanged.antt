-- ===== src/Program/Unchanged.antt =====
-- What main.cc leaves alone once the options are read.
use sponsoryeet.Prelude.{◌≡◌, refl, ap, ◌∙◌, Bool}
use sponsoryeet.Cast.Protobuf.{Protobuf}
use sponsoryeet.Cast.Message.{CastMessage}
use sponsoryeet.State.{Double, Os, Matcher, Machine}
use sponsoryeet.Mdns.Query.{Net}
use sponsoryeet.Loop.Handle.Settings.{handle_message-settings}
use sponsoryeet.Loop.Serve.{ErrorNumbers}
use sponsoryeet.Loop.Serve.Options.{options, of_lasting, of_settings}
use sponsoryeet.Program.{Terminal, Rounds, run}
use sponsoryeet.Program.Follows.{run-Follows}

module _ {D T W : Type 0} (double : Double D) (os : Os W) (m : Matcher D W)
    (p : Protobuf CastMessage) (net : Net W) (numbers : ErrorNumbers) (terminal : Terminal T W)
    (first : Bool) (rounds : Rounds) where
  -- However long the program runs, and whatever connections, keys and messages come, the options that
  -- the user has chosen stay as they are, over all connections, also when the last is forgotten.
  pub run-options :
      (s : Machine D W)
      → options (run double os m p net numbers terminal first rounds s).1.globals
        ≡ options s.globals
  run-options =
      run-Follows double os m p net numbers terminal first rounds (λ g h. options h ≡ options g)
        (record { quiet = λ g h e. ap of_lasting e; follow = λ g h k a b. b ∙ a })
        (λ conn input s. ap of_settings (handle_message-settings double os m p first conn input s))
        (λ g. refl) (λ g. refl)
