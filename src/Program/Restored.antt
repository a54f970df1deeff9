-- ===== src/Program/Restored.antt =====
-- The terminal that main.cc changes.
use sponsoryeet.Prelude.{ℕ, ◌≡◌, ◌∙◌, Bool, some, Option-cases, inl, inr}
use sponsoryeet.Cast.Protobuf.{Protobuf}
use sponsoryeet.Cast.Message.{CastMessage}
use sponsoryeet.State.{Double, Os, Matcher, Machine, call}
use sponsoryeet.Mdns.Query.{Net}
use sponsoryeet.Loop.Serve.{ErrorNumbers}
use sponsoryeet.Program.{SignalName, sigint, sigterm, sigquit, Terminal, Rounds, turns, run}

-- The attributes of the terminal are what was last set, and the other calls here leave them alone.
pub record HasAttributes {T W : Type 0} (terminal : Terminal T W) (attributes : W → T)
    : Type 0 where
  pub gets : (w : W) → (terminal.tcgetattr w).0 ≡ attributes w
  pub sets : (t : T) (w : W) → attributes (terminal.tcsetattr t w).1 ≡ t
  pub signals : (name : SignalName) (w : W) → attributes (terminal.signal name w).1 ≡ attributes w

module _ {D T W : Type 0} (double : Double D) (os : Os W) (m : Matcher D W)
    (p : Protobuf CastMessage) (net : Net W) (numbers : ErrorNumbers) (terminal : Terminal T W)
    (first : Bool) (rounds : Rounds) (attributes : W → T)
    (laws : HasAttributes terminal attributes) where
  -- Whenever the part of `main` behind the options returns, whatever the code and whatever happened on
  -- the way, the terminal has the attributes that it began with.
  pub run_restores :
      (s : Machine D W) (code : ℕ)
      → (run double os m p net numbers terminal first rounds s).0 ≡ some code
      → attributes (run double os m p net numbers terminal first rounds s).1.world
        ≡ attributes s.world
  unfolding run
  run_restores s code h =
      let s₁ = (call (terminal.signal sigint) s).1 in
      let s₂ = (call (terminal.signal sigterm) s₁).1 in
      let s₃ = (call (terminal.signal sigquit) s₂).1 in
      let (orig, s₄) = call terminal.tcgetattr s₃ in
      let s₅ = (call (terminal.tcsetattr (terminal.quiet orig)) s₄).1 in
      let result = turns double os m p net numbers terminal first rounds rounds.connections 0 s₅ in
      let same =
        laws.signals sigquit s₂.world
        ∙ laws.signals sigterm s₁.world
        ∙ laws.signals sigint s.world in
      elim (Option-cases result.0) [
        | inl e ↦ cc (e, h)
        | inr (ret, e) ↦ rw e (laws.sets orig result.1.world ∙ laws.gets s₃.world ∙ same)
      ]
