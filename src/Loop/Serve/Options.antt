-- ===== src/Loop/Serve/Options.antt =====
-- What `loop` of loop.h leaves alone.
use sponsoryeet.Prelude.{ℕ, ◌≡◌, refl, ap, ◌∙◌, Bool, List, Bytes}
use sponsoryeet.Cast.Protobuf.{Protobuf}
use sponsoryeet.Cast.Message.{CastMessage}
use sponsoryeet.State.{Double, Globals, Os, Matcher, Machine}
use sponsoryeet.Connection.{Connection}
use sponsoryeet.Mdns.Query.{Net}
use sponsoryeet.Loop.Handle.Kept.{Settings}
use sponsoryeet.Loop.Handle.Settings.{handle_message-settings}
use sponsoryeet.Loop.Serve.{ErrorNumbers, serve}
use sponsoryeet.Loop.Serve.Follows.{Lasting}
use sponsoryeet.Loop.Serve.Rounds.{serve-Follows}

-- The options of the user.
pub record Options : Type 0 where
  pub verbose : Bool
  pub adblock : Bool
  pub categories : List Bytes

abbrev pub of_settings : Settings → Options
of_settings s = record { verbose = s.verbose; adblock = s.adblock; categories = s.categories }

abbrev pub of_lasting : {D : Type 0} → Lasting D → Options
of_lasting l = record { verbose = l.verbose; adblock = l.adblock; categories = l.categories }

abbrev pub options : {D : Type 0} → Globals D → Options
options g = record { verbose = g.verbose; adblock = g.adblock; categories = g.categories }

module _ {D W : Type 0} (double : Double D) (os : Os W) (m : Matcher D W) (p : Protobuf CastMessage)
    (net : Net W) (numbers : ErrorNumbers) (first : Bool) where
  -- However long the connection is served, and whatever keys and messages come, the options that the
  -- user has chosen stay as they are.
  serve-options :
      (rounds : ℕ) (conn : Connection) (s : Machine D W)
      → options (serve double os m p net numbers first rounds conn s).1.globals ≡ options s.globals
  serve-options =
      serve-Follows double os m p net numbers first (λ g h. options h ≡ options g)
        (record { quiet = λ g h e. ap of_lasting e; follow = λ g h k a b. b ∙ a })
        (λ conn input s. ap of_settings (handle_message-settings double os m p first conn input s))
        (λ g. refl)
