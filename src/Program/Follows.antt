-- ===== src/Program/Follows.antt =====
-- What holds of every change that the loop of main.cc makes, from what holds of a message and of the
-- reset before a search.
use sponsoryeet.Prelude.{
  ℕ, zero, suc, refl, ap, ◌∙◌, Bool, true, false, not, ◌&&◌, Bool-cases, Option, none, some, inl,
  inr, if◌then◌else◌, ◌==◌, Bytes, codes,
}
use sponsoryeet.Cast.Protobuf.{Protobuf}
use sponsoryeet.Cast.Message.{CastMessage}
use sponsoryeet.State.{Address, Double, Globals, Os, Matcher, Action, return, modify, call}
use sponsoryeet.State.View.{choose-KeepsView}
use sponsoryeet.State.Follows.{Covers, Follows}
use sponsoryeet.Connection.{Connection}
use sponsoryeet.Mdns.Query.{Net, find_chromecast}
use sponsoryeet.Mdns.Query.Globals.{find_chromecast-globals}
use sponsoryeet.Loop.Handle.{handle_message}
use sponsoryeet.Loop.Serve.{ErrorNumbers}
use sponsoryeet.Loop.Serve.Follows.{lasting}
use sponsoryeet.Loop.Serve.Session.{loop-Follows}
use sponsoryeet.Program.{
  sigint, sigterm, sigquit, Terminal, Rounds, Turn, turned, broken, unfinished, forget, connect_to,
  judge_search, turn, after_turn, turns, run,
}

module _ {D T W : Type 0} (double : Double D) (os : Os W) (m : Matcher D W)
    (p : Protobuf CastMessage) (net : Net W) (numbers : ErrorNumbers) (terminal : Terminal T W)
    (first : Bool) (rounds : Rounds) (R : Globals D → Globals D → Type 0)
    (covers : Covers lasting R)
    (messages : (conn : Connection) (input : Bytes)
      → Follows R (handle_message double os m p first conn input))
    (stops : (g : Globals D) → R g (record g { running = false }))
    (forgets : (g : Globals D) → R g (forget double g)) where
  nothing : (g : Globals D) → R g g
  nothing g = covers.quiet g g refl

  connect_to-Follows :
      (address : Address)
      → Follows R (connect_to double os m p net numbers terminal first rounds address)
  unfolding connect_to
  connect_to-Follows address s =
      let g = record s.globals { current_status = codes "Connecting..." } in
      covers.follow s.globals g _ (covers.quiet s.globals g refl) (
        loop-Follows double os m p net numbers first R covers messages stops rounds.messages address
          (record s { globals = g }))

  judge_search-Follows :
      (found : Option (Bool × Address))
      → Follows R (judge_search double os m p net numbers terminal first rounds found)
  unfolding judge_search
  judge_search-Follows none s = nothing s.globals
  judge_search-Follows (some (false, address)) s = nothing s.globals
  judge_search-Follows (some (true, address)) s = connect_to-Follows address s

  turn-Follows : (ret : ℕ) → Follows R (turn double os m p net numbers terminal first rounds ret)
  unfolding turn
  turn-Follows ret s =
      let s₁ = (modify (forget double) s).1 in
      let s₂ = ((if ret == 0 then return tt else call (terminal.sleep 10)) s₁).1 in
      let slept =
        choose-KeepsView lasting (ret == 0) (return tt) (call (terminal.sleep 10)) (λ t. refl)
          (λ t. refl) s₁ in
      let no_address : Address = record { host = 0; port = 0 } in
      let (found, s₃) = find_chromecast os net rounds.searches rounds.labels no_address s₂ in
      let same =
        ap lasting (find_chromecast-globals os net rounds.searches rounds.labels no_address s₂) in
      covers.follow s.globals s₁.globals _ (forgets s.globals) (
        covers.follow s₁.globals s₃.globals _ (covers.quiet s₁.globals s₃.globals (same ∙ slept))
          (judge_search-Follows found s₃))

  after_turn-Follows :
      (later : ℕ → Action D W (Option ℕ)) (next : Turn)
      → ((code : ℕ) → Follows R (later code))
      → Follows R (after_turn double os m p net numbers terminal first rounds later next)
  unfolding after_turn
  after_turn-Follows later (turned code) h = h code
  after_turn-Follows later (broken code) h = λ s. nothing s.globals
  after_turn-Follows later unfinished h = λ s. nothing s.globals

  pub turns-Follows :
      (count ret : ℕ) → Follows R (turns double os m p net numbers terminal first rounds count ret)
  unfolding turns
  turns-Follows zero ret s = nothing s.globals
  turns-Follows (suc more) ret s =
      let (going, s₁) = call net.running s in
      let (next, s₂) = turn double os m p net numbers terminal first rounds ret s₁ in
      elim (Bool-cases (not (s.globals.running && going))) [
        | inl e ↦ rw e (nothing s.globals)
        | inr e ↦ rw e (
            covers.follow s.globals s₂.globals _ (turn-Follows ret s₁) (
              after_turn-Follows (turns double os m p net numbers terminal first rounds more) next
                (turns-Follows more) s₂))
      ]

  -- The terminal as it was, if the rounds have sufficed.
  abbrev restore : T → Option ℕ → Action D W (Unit {0})
  restore orig ret = elim ret [ none ↦ return tt | some code ↦ call (terminal.tcsetattr orig) ]

  restore-Follows : (orig : T) (ret : Option ℕ) → Follows R (restore orig ret)
  restore-Follows orig none s = nothing s.globals
  restore-Follows orig (some code) s = nothing s.globals

  pub run-Follows : Follows R (run double os m p net numbers terminal first rounds)
  unfolding run
  run-Follows s =
      let s₁ = (call (terminal.signal sigint) s).1 in
      let s₂ = (call (terminal.signal sigterm) s₁).1 in
      let s₃ = (call (terminal.signal sigquit) s₂).1 in
      let (orig, s₄) = call terminal.tcgetattr s₃ in
      let s₅ = (call (terminal.tcsetattr (terminal.quiet orig)) s₄).1 in
      let (ret, s₆) =
        turns double os m p net numbers terminal first rounds rounds.connections 0 s₅ in
      covers.follow s.globals s₆.globals _ (turns-Follows rounds.connections 0 s₅)
        (restore-Follows orig ret s₆)
