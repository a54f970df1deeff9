-- ===== src/Program.antt =====
-- `main` of main.cc: the loader, the options, the terminal, and the loop that connects again. The
-- signal handler clears `s_running`, which is the call `running` of `Net`. Printing is left out.
pub mod Restored
pub mod Blind
pub mod Loaded
pub mod Follows
pub mod Watched
pub mod Unchanged
pub mod Released
pub mod Quit
use sponsoryeet.Prelude.{
  ℕ, zero, suc, Bool, true, false, not, ◌&&◌, Option, none, some, List, [], if◌then◌else◌, ◌==◌,
  Bytes, codes, pos, negsuc,
}
use sponsoryeet.Cast.Protobuf.{Protobuf}
use sponsoryeet.Cast.Message.{CastMessage}
use sponsoryeet.State.{
  Address, Double, Globals, Os, Matcher, Machine, Action, ◌>>=◌, ◌>>◌, return, get, modify, call,
}
use sponsoryeet.Ssl.{Linker, Symbols, initialize}
use sponsoryeet.Options.{parse_args}
use sponsoryeet.Mdns.Query.{Net, find_chromecast}
use sponsoryeet.Loop.Position.{minus_one}
use sponsoryeet.Loop.Serve.{ErrorNumbers, Served, again, leave, loop}

pub data SignalName : Type 0 where
  sigint sigterm sigquit : SignalName

-- The calls of `main`. `T` is `termios`; `quiet` clears `ECHO` and `ICANON` in its `c_lflag`.
pub record Terminal (T W : Type 0) : Type 0 where
  pub tcgetattr : W → T × W
  pub tcsetattr : T → W → Unit {0} × W
  pub quiet : T → T
  pub signal : SignalName → W → Unit {0} × W
  pub sleep : ℕ → W → Unit {0} × W
  pub enoent : ℕ
  pub einval : ℕ

-- How a round of the loop ends: with a new value of `ret`, by `break`, or not within the rounds that
-- it was given, which includes a call that does not come back.
pub data Turn : Type 0 where
  turned : ℕ → Turn
  broken : ℕ → Turn
  unfinished : Turn

-- The rounds that each of the loops is given.
pub record Rounds : Type 0 where
  pub connections : ℕ
  pub messages : ℕ
  pub searches : ℕ
  pub labels : ℕ

abbrev no_address : Address
no_address = record { host = 0; port = 0 }

module _ {D : Type 0} (double : Double D) where
  -- What the program knew of the last connection is forgotten.
  abbrev pub forget : Globals D → Globals D
  forget g = record g {
    current_position = minus_one double;
    next_segment_start = minus_one double;
    last_position_fetched = minus_one double;
    current_video = [];
    media_session = [];
    dest = [];
  }

module _ {D T W : Type 0} (double : Double D) (os : Os W) (m : Matcher D W)
    (p : Protobuf CastMessage) (net : Net W) (numbers : ErrorNumbers) (terminal : Terminal T W)
    (first : Bool) (rounds : Rounds) where
  open terminal use {tcgetattr, tcsetattr, quiet, signal, sleep, enoent, einval}

  -- A device was found, or `findChromecast` says so.
  pub connect_to : Address → Action D W Turn
  connect_to address = do
    modify (λ g. record g { current_status = codes "Connecting..." })
    served ← loop double os m p net numbers first rounds.messages address
    return (elim served [ again conn ↦ unfinished | leave code conn ↦ turned code ])

  pub judge_search : Option (Bool × Address) → Action D W Turn
  judge_search none = return unfinished
  judge_search (some (false, address)) = return (broken enoent)
  judge_search (some (true, address)) = connect_to address

  -- One round of `while (s_running)`.
  unfoldable pub turn : ℕ → Action D W Turn
  unfolding judge_search connect_to
  turn ret = do
    modify (forget double)
    slept ← if ret == 0 then return tt else call (sleep 10)
    found ← find_chromecast os net rounds.searches rounds.labels no_address
    judge_search found

  -- What follows a round: the next one with its value of `ret`, or the end.
  unfoldable pub after_turn : (ℕ → Action D W (Option ℕ)) → Turn → Action D W (Option ℕ)
  after_turn later (turned code) = later code
  after_turn later (broken code) = return (some code)
  after_turn later unfinished = return none

  -- `none` if the rounds do not suffice.
  unfoldable pub turns : ℕ → ℕ → Action D W (Option ℕ)
  turns zero ret = return none
  turns (suc more) ret = do
    g ← get
    going ← call net.running
    if not (g.running && going)
        then return (some ret)
        else (do next ← turn ret; after_turn (turns more) next)

  -- From the signal handlers on.
  unfoldable pub run : Action D W (Option ℕ)
  unfolding turns after_turn
  run = do
    handled ← call (signal sigint)
    handled ← call (signal sigterm)
    handled ← call (signal sigquit)
    orig_termios ← call tcgetattr
    changed ← call (tcsetattr (quiet orig_termios))
    ret ← turns rounds.connections 0
    restored ← elim ret [ none ↦ return tt | some code ↦ call (tcsetattr orig_termios) ]
    return ret

  -- The library is loaded into `symbols`, which are the variables of ssl.cc.
  unfoldable pub main :
      Linker W → List Bytes → List Bytes → Symbols → Machine D W → Option ℕ × Symbols × Machine D W
  main linker order args symbols s =
      let (loaded, after) = initialize linker (record { symbols = symbols; world = s.world }) in
      let s₁ : Machine D W = record s { world = after.world } in
      if not loaded then (some 1, after.symbols, s₁) else elim (parse_args order args s₁.globals) [
        | none ↦ (some einval, after.symbols, s₁)
        | some g ↦ let (ret, s₂) = run (record s₁ { globals = g }) in (ret, after.symbols, s₂)
      ]
