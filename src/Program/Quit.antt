-- ===== src/Program/Quit.antt =====
-- What main.cc does with a key that ends the program.
use sponsoryeet.Prelude.{
  ℕ, zero, suc, ◌<◌, ◌≡◌, refl, ap, ◌∙◌, Bool, true, false, not, ◌&&◌, Bool-cases, Option, none,
  some, inl, inr, if◌then◌else◌, ◌==◌, codes, arith,
}
use sponsoryeet.Cast.Protobuf.{Protobuf}
use sponsoryeet.Cast.Message.{CastMessage}
use sponsoryeet.State.{Address, Double, Globals, Os, Matcher, Machine, Action, return, modify, call}
use sponsoryeet.State.View.{choose-KeepsView}
use sponsoryeet.Mdns.Query.{Net, find_chromecast}
use sponsoryeet.Mdns.Query.Globals.{find_chromecast-globals}
use sponsoryeet.Loop.Serve.{ErrorNumbers, Served, again, leave, loop}
use sponsoryeet.Loop.Serve.Quit.{Goes, code_of, loop-Ends}
use sponsoryeet.Program.{
  Terminal, Rounds, Turn, turned, broken, unfinished, forget, connect_to, judge_search, turn,
  after_turn, turns,
}

-- The value of `ret` that the next round begins with.
abbrev next_ret : Turn → Option ℕ
next_ret (turned code) = some code
next_ret (broken code) = none
next_ret unfinished = none

module _ {D T W : Type 0} (double : Double D) (os : Os W) (m : Matcher D W)
    (p : Protobuf CastMessage) (net : Net W) (numbers : ErrorNumbers) (terminal : Terminal T W)
    (first : Bool) (rounds : Rounds) where
  abbrev running_of : Globals D → Bool
  running_of g = g.running

  connected-Goes :
      (served : Served) (g : Globals D)
      → Goes (code_of served) g
      → Goes (next_ret (elim served [ again conn ↦ unfinished | leave code conn ↦ turned code ])) g
  connected-Goes (again conn) g r = r
  connected-Goes (leave code conn) g r = r

  connect_to-Goes :
      (address : Address) (s : Machine D W)
      → s.globals.running ≡ true
      → let (next, after) = connect_to double os m p net numbers terminal first rounds address s in
        Goes (next_ret next) after.globals
  unfolding connect_to
  connect_to-Goes address s h =
      let s₁ : Machine D W = record s {
        globals = record s.globals { current_status = codes "Connecting..." };
      } in
      let (served, s₂) = loop double os m p net numbers first rounds.messages address s₁ in
      connected-Goes served s₂.globals
        (loop-Ends double os m p net numbers first rounds.messages address s₁ h)

  judge_search-Goes :
      (found : Option (Bool × Address)) (s : Machine D W)
      → s.globals.running ≡ true
      → let (next, after) = judge_search double os m p net numbers terminal first rounds found s in
        Goes (next_ret next) after.globals
  unfolding judge_search
  judge_search-Goes none s h = inl h
  judge_search-Goes (some (false, address)) s h = inl h
  judge_search-Goes (some (true, address)) s h = connect_to-Goes address s h

  turn-Goes :
      (ret : ℕ) (s : Machine D W)
      → s.globals.running ≡ true
      → let (next, after) = turn double os m p net numbers terminal first rounds ret s in
        Goes (next_ret next) after.globals
  unfolding turn
  turn-Goes ret s h =
      let s₁ = (modify (forget double) s).1 in
      let s₂ = ((if ret == 0 then return tt else call (terminal.sleep 10)) s₁).1 in
      let slept =
        choose-KeepsView running_of (ret == 0) (return tt) (call (terminal.sleep 10)) (λ t. refl)
          (λ t. refl) s₁ in
      let no_address : Address = record { host = 0; port = 0 } in
      let (found, s₃) = find_chromecast os net rounds.searches rounds.labels no_address s₂ in
      let same =
        ap running_of
          (find_chromecast-globals os net rounds.searches rounds.labels no_address s₂) in
      judge_search-Goes found s₃ (same ∙ slept ∙ h)

  abbrev again_and_again : ℕ → ℕ → Action D W (Option ℕ)
  again_and_again = turns double os m p net numbers terminal first rounds

  -- Behind the key, a round more returns.
  turns-over :
      (more ret : ℕ) (s : Machine D W)
      → 0 < more
      → s.globals.running ≡ false
      → (again_and_again more ret s).0 ≡ some ret
  unfolding turns
  turns-over zero ret s h e = ground (arith, h)
  turns-over (suc more) ret s h e = rw e refl

  after_turn_quit :
      (count more : ℕ) (next : Turn) (s : Machine D W)
      → ((ret : ℕ) (t : Machine D W)
          → t.globals.running ≡ true
          → (again_and_again count ret t).1.globals.running ≡ false
          → (again_and_again more ret t).0 ≡ some 0)
      → 0 < more
      → Goes (next_ret next) s.globals
      → (after_turn double os m p net numbers terminal first rounds
          (again_and_again count)
          next
          s).1.globals.running
        ≡ false
      → (after_turn double os m p net numbers terminal first rounds (again_and_again more) next s).0
        ≡ some 0
  unfolding after_turn
  after_turn_quit count more (turned code) s ih some_more (inl r) k = ih code s r k
  after_turn_quit count more (turned code) s ih some_more (inr (r, e)) k =
      turns-over more code s some_more r ∙ e
  after_turn_quit count more (broken code) s ih some_more (inl r) k = cc (r, k)
  after_turn_quit count more (broken code) s ih some_more (inr (r, e)) k = cc e
  after_turn_quit count more unfinished s ih some_more (inl r) k = cc (r, k)
  after_turn_quit count more unfinished s ih some_more (inr (r, e)) k = cc e

  -- If a number of connections of the loop of main, begun while the program runs, clears the variable
  -- that says so, then with any greater number of connections to try the loop returns, and what it
  -- returns is 0: a key that ends the program while it is connected ends it without an error.
  pub turns_quit :
      (count more ret : ℕ) (s : Machine D W)
      → count < more
      → s.globals.running ≡ true
      → (turns double os m p net numbers terminal first rounds count ret s).1.globals.running
        ≡ false
      → (turns double os m p net numbers terminal first rounds more ret s).0 ≡ some 0
  unfolding turns
  turns_quit zero more ret s few h k = cc (h, k)
  turns_quit (suc count) zero ret s few h k = ground (arith, few)
  turns_quit (suc count) (suc more) ret s few h k =
      let (going, s₁) = call net.running s in
      let (next, s₂) = turn double os m p net numbers terminal first rounds ret s₁ in
      elim (Bool-cases (not (s.globals.running && going))) [
        | inl e ↦ cc (h, rw e at k)
        | inr e ↦ rw e (
            after_turn_quit count more next s₂
              (λ ret' t r k'. turns_quit count more ret' t (omega (arith, few)) r k')
              (omega (arith, few)) (turn-Goes ret s₁ h) (rw e at k))
      ]
