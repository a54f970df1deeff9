-- ===== src/Program/Released.antt =====
-- The descriptors and handles of main.cc over all its connections.
use sponsoryeet.State.Bag.{Bag, empty, both, both-empty}
use sponsoryeet.Prelude.{
  ℕ, zero, suc, ◌≡◌, refl, sym, ap, subst, ◌∙◌, Bool, true, false, not, ◌&&◌, Bool-cases, Option,
  none, some, Option-cases, inl, inr, if◌then◌else◌, ◌==◌, ℤ, codes,
}
use sponsoryeet.Cast.Protobuf.{Protobuf}
use sponsoryeet.Cast.Message.{CastMessage}
use sponsoryeet.State.{Address, Double, Os, Matcher, Machine, Action, return, modify, call}
use sponsoryeet.State.World.{choose-KeepsWorld, Spares}
use sponsoryeet.Connection.Released.{Holds}
use sponsoryeet.Mdns.Query.{Net, is_negative, send_request, open_socket, find_chromecast}
use sponsoryeet.Mdns.Query.Released.{Sockets, left_open, find_chromecast-holds}
use sponsoryeet.Mdns.Query.Failed.{find_chromecast-failed}
use sponsoryeet.Loop.Serve.{ErrorNumbers, Served, again, leave, loop}
use sponsoryeet.Loop.Serve.Released.{Waits, still_open, loop-holds}
use sponsoryeet.Program.{
  SignalName, sigint, sigterm, sigquit, Terminal, Rounds, Turn, turned, broken, unfinished, forget,
  connect_to, judge_search, turn, after_turn, turns, run,
}

-- The calls of the terminal leave alone what is in use.
pub record SparesTerminal {T W : Type 0} (terminal : Terminal T W) (held : W → Bag) : Type 0 where
  pub gets : (w : W) → held (terminal.tcgetattr w).1 ≡ held w
  pub sets : (t : T) (w : W) → held (terminal.tcsetattr t w).1 ≡ held w
  pub signals : (name : SignalName) (w : W) → held (terminal.signal name w).1 ≡ held w
  pub sleeps : (n : ℕ) (w : W) → held (terminal.sleep n w).1 ≡ held w

-- What the calls have to do with what is in use.
pub record Counts {D T W : Type 0} (os : Os W) (m : Matcher D W) (net : Net W)
    (terminal : Terminal T W) (held : W → Bag) : Type 0 where
  pub holds : Holds os held
  pub spares : Spares os m held
  pub waits : Waits net held
  pub sockets : Sockets os net held
  pub at_terminal : SparesTerminal terminal held

module _ {D T W : Type 0} (double : Double D) (os : Os W) (m : Matcher D W)
    (p : Protobuf CastMessage) (net : Net W) (numbers : ErrorNumbers) (terminal : Terminal T W)
    (first : Bool) (rounds : Rounds) (held : W → Bag) (counts : Counts os m net terminal held)
    (asks : (fd : ℤ) (s : Machine D W) → (send_request os net fd s).0 ≡ true) where
  open counts use {holds, spares, waits, sockets, at_terminal}

  -- Unless the round is cut off, as much is in use as `n` says.
  abbrev AfterTurn : Turn → Bag → Machine D W → Type 0
  AfterTurn (turned code) n s = held s.world ≡ n
  AfterTurn (broken code) n s = held s.world ≡ n
  AfterTurn unfinished n s = Unit

  abbrev AfterTurns : Option ℕ → Bag → Machine D W → Type 0
  AfterTurns none n s = Unit
  AfterTurns (some code) n s = held s.world ≡ n

  answered :
      (served : Served) (s : Machine D W) (n : Bag)
      → held s.world ≡ both (still_open served) n
      → AfterTurn (elim served [ again conn ↦ unfinished | leave code conn ↦ turned code ]) n s
  answered (again conn) s n h = tt
  answered (leave code conn) s n h = h ∙ both-empty n

  connect_to-holds :
      (address : Address) (s : Machine D W)
      → let (next, after) = connect_to double os m p net numbers terminal first rounds address s in
        AfterTurn next (held s.world) after
  unfolding connect_to
  connect_to-holds address s =
      let s₁ : Machine D W = record s {
        globals = record s.globals { current_status = codes "Connecting..." };
      } in
      let (served, s₂) = loop double os m p net numbers first rounds.messages address s₁ in
      answered served s₂ (held s.world) (
        loop-holds double os m p net numbers first held holds spares waits rounds.messages address
          s₁)

  judge_search-holds :
      (fd : ℤ) (found : Option (Bool × Address)) (s : Machine D W) (n : Bag)
      → held s.world ≡ both (left_open fd found) n
      → let (next, after) = judge_search double os m p net numbers terminal first rounds found s in
        AfterTurn next n after
  unfolding judge_search
  judge_search-holds fd none s n h = tt
  judge_search-holds fd (some (false, address)) s n h = h ∙ both-empty n
  judge_search-holds fd (some (true, address)) s n h =
      let (next, after) = connect_to double os m p net numbers terminal first rounds address s in
      subst (λ k. AfterTurn next k after) (h ∙ both-empty n) (connect_to-holds address s)

  search-holds :
      (address : Address) (s : Machine D W)
      → let fd = (open_socket os net s).0 in
        let (found, after) = find_chromecast os net rounds.searches rounds.labels address s in
        held after.world ≡ both (left_open fd found) (held s.world)
  search-holds address s =
      let (fd, opened) = open_socket os net s in
      let result = find_chromecast os net rounds.searches rounds.labels address s in
      let ended =
        find_chromecast-holds os net held sockets rounds.searches rounds.labels address s in
      let sent = asks fd opened in
      elim (Bool-cases (is_negative fd)) [
        | inl e ↦
            let failed =
              find_chromecast-failed os net rounds.searches rounds.labels address s (inl e) in
            let answer : left_open fd result.0 ≡ empty = ap (λ r. left_open fd r.0) failed in
            (rw e at ended) ∙ sym (ap (λ k. both k (held s.world)) answer)
        | inr e ↦ rw (e, sent) at ended
      ]

  turn-holds :
      (ret : ℕ) (s : Machine D W)
      → let (next, after) = turn double os m p net numbers terminal first rounds ret s in
        AfterTurn next (held s.world) after
  unfolding turn
  turn-holds ret s =
      let s₁ = (modify (forget double) s).1 in
      let s₂ = ((if ret == 0 then return tt else call (terminal.sleep 10)) s₁).1 in
      let slept =
        choose-KeepsWorld held (ret == 0) (return tt) (call (terminal.sleep 10)) (λ t. refl)
          (λ t. at_terminal.sleeps 10 t.world) s₁ in
      let no_address : Address = record { host = 0; port = 0 } in
      let (found, s₃) = find_chromecast os net rounds.searches rounds.labels no_address s₂ in
      judge_search-holds (open_socket os net s₂).0 found s₃ (held s.world)
        (search-holds no_address s₂ ∙ ap (both (left_open (open_socket os net s₂).0 found)) slept)

  after_turn-holds :
      (later : ℕ → Action D W (Option ℕ)) (next : Turn) (s : Machine D W) (n : Bag)
      → AfterTurn next n s
      → ((code : ℕ) → held s.world ≡ n → AfterTurns (later code s).0 n (later code s).1)
      → AfterTurns
          (after_turn double os m p net numbers terminal first rounds later next s).0
          n
          (after_turn double os m p net numbers terminal first rounds later next s).1
  unfolding after_turn
  after_turn-holds later (turned code) s n h more = more code h
  after_turn-holds later (broken code) s n h more = h
  after_turn-holds later unfinished s n h more = tt

  turns-holds :
      (count ret : ℕ) (s : Machine D W) (n : Bag)
      → held s.world ≡ n
      → let (result, after) = turns double os m p net numbers terminal first rounds count ret s in
        AfterTurns result n after
  unfolding turns
  turns-holds zero ret s n h = tt
  turns-holds (suc more) ret s n h =
      let (going, s₁) = call net.running s in
      let (next, s₂) = turn double os m p net numbers terminal first rounds ret s₁ in
      let ran = waits.runs s.world ∙ h in
      let turned_ = subst (λ k. AfterTurn next k s₂) ran (turn-holds ret s₁) in
      elim (Bool-cases (not (s.globals.running && going))) [
        | inl e ↦ rw e ran
        | inr e ↦ rw e (
            after_turn-holds (turns double os m p net numbers terminal first rounds more) next s₂ n
              turned_ (λ code k. turns-holds more code s₂ n k))
      ]

  -- If every request of the search can be sent, then whenever the part of `main` behind the options
  -- returns, after any number of searches, connections and downloads, and whatever failed on the way,
  -- it has given back every socket, context and handle that it has taken, each of them by itself: the same
  -- ones are in use as before.
  pub run-holds :
      (s : Machine D W) (code : ℕ)
      → (run double os m p net numbers terminal first rounds s).0 ≡ some code
      → held (run double os m p net numbers terminal first rounds s).1.world ≡ held s.world
  unfolding run
  run-holds s code h =
      let s₁ = (call (terminal.signal sigint) s).1 in
      let s₂ = (call (terminal.signal sigterm) s₁).1 in
      let s₃ = (call (terminal.signal sigquit) s₂).1 in
      let (orig, s₄) = call terminal.tcgetattr s₃ in
      let s₅ = (call (terminal.tcsetattr (terminal.quiet orig)) s₄).1 in
      let (result, s₆) =
        turns double os m p net numbers terminal first rounds rounds.connections 0 s₅ in
      let same =
        at_terminal.sets (terminal.quiet orig) s₄.world
        ∙ at_terminal.gets s₃.world
        ∙ at_terminal.signals sigquit s₂.world
        ∙ at_terminal.signals sigterm s₁.world
        ∙ at_terminal.signals sigint s.world in
      let ended = turns-holds rounds.connections 0 s₅ (held s.world) same in
      elim (Option-cases result) [
        | inl e ↦ cc (e, h)
        | inr (ret, e) ↦
            rw e
              (at_terminal.sets orig s₆.world ∙ subst (λ r. AfterTurns r (held s.world) s₆) e ended)
      ]
