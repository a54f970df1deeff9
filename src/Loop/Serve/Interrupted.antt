-- ===== src/Loop/Serve/Interrupted.antt =====
-- `loop` of loop.h when `errno` says `EINTR` from before: a call that succeeds does not clear it.
use sponsoryeet.Prelude.{
  ℕ, zero, suc, ◌≡◌, refl, ap, ◌∙◌, Bool, true, not, ◌&&◌, ◌||◌, ◌==◌, Bool-cases, inl, inr,
  if◌then◌else◌, ℤ, arith,
}
use sponsoryeet.Cast.Protobuf.{Protobuf}
use sponsoryeet.Cast.Message.{CastMessage}
use sponsoryeet.State.{Double, Os, Matcher, Machine, call}
use sponsoryeet.Connection.{Connection}
use sponsoryeet.Mdns.Query.{Net, is_negative}
use sponsoryeet.Loop.Position.{current_position}
use sponsoryeet.Loop.Position.Answers.{current_position-globals}
use sponsoryeet.Loop.Serve.{ErrorNumbers, again, leave, serve_round, resume, serve}

-- The calls leave an interruption in `errno`.
pub record Sticky {W : Type 0} (os : Os W) (net : Net W) : Type 0 where
  pub time_keeps : (w : W) → os.errno w ≡ net.eintr → os.errno (os.time w).1 ≡ net.eintr
  pub running_keeps : (w : W) → os.errno w ≡ net.eintr → os.errno (net.running w).1 ≡ net.eintr
  pub select_keeps :
      (fd : ℤ) (w : W) → os.errno w ≡ net.eintr → os.errno (net.select fd w).1 ≡ net.eintr

module _ {D W : Type 0} (double : Double D) (os : Os W) (m : Matcher D W) (p : Protobuf CastMessage)
    (net : Net W) (numbers : ErrorNumbers) (first : Bool) (sticky : Sticky os net) where
  current_position-errno :
      (s : Machine D W)
      → os.errno s.world ≡ net.eintr
      → os.errno (current_position double os s).1.world ≡ net.eintr
  unfolding current_position
  current_position-errno s h = let later = sticky.time_keeps s.world h in ground (arith, later)

  -- The state behind `select` and `currentPosition`.
  abbrev looked : Connection → Machine D W → Machine D W
  looked conn s = (current_position double os (call (net.select conn.fd) s).1).1

  looked-errno :
      (conn : Connection) (s : Machine D W)
      → os.errno s.world ≡ net.eintr
      → os.errno (looked conn s).world ≡ net.eintr
  looked-errno conn s h =
      current_position-errno (call (net.select conn.fd) s).1 (sticky.select_keeps conn.fd s.world h)

  looked-globals : (conn : Connection) (s : Machine D W) → (looked conn s).globals ≡ s.globals
  looked-globals conn s = current_position-globals double os (call (net.select conn.fd) s).1

  serve_round-idle :
      (conn : Connection) (s : Machine D W)
      → os.errno s.world ≡ net.eintr
      → serve_round double os m p net numbers first conn s ≡ (
        (if is_negative (net.select conn.fd s.world).0.count
            then leave net.eintr conn
            else again conn),
        looked conn s,
      )
  unfolding serve_round
  serve_round-idle conn s h =
      let e = looked-errno conn s h in
      elim (Bool-cases (is_negative (net.select conn.fd s.world).0.count)) [
        | inl n ↦ rw (n, e) refl
        | inr n ↦
            let same : (os.errno (looked conn s).world == net.eintr) ≡ true = ground (arith, e) in
            rw (n, same) refl
      ]

  -- Once `errno` is `EINTR`, and as long as no call changes it, the rounds of `loop` do nothing: they
  -- change no variable, so that no key ends the program, no message is taken and no ping is noted.
  pub serve-idle :
      (rounds : ℕ) (conn : Connection) (s : Machine D W)
      → os.errno s.world ≡ net.eintr
      → (serve double os m p net numbers first rounds conn s).1.globals ≡ s.globals
  unfolding serve resume
  serve-idle zero conn s h = refl
  serve-idle (suc rounds) conn s h =
      let (going, s₁) = call net.running s in
      let e = sticky.running_keeps s.world h in
      let round = serve_round-idle conn s₁ e in
      let same = looked-globals conn s₁ in
      let rest =
        resume double os m p net numbers first (serve double os m p net numbers first rounds) in
      elim (Bool-cases (not (s.globals.running && going) || conn.eof)) [
        | inl over ↦ rw over refl
        | inr on ↦ rw on (
            ap (λ r. (rest r.0 r.1).1.globals) round
            ∙ elim (Bool-cases (is_negative (net.select conn.fd s₁.world).0.count)) [
              | inl n ↦ rw n same
              | inr n ↦
                  rw n (serve-idle rounds conn (looked conn s₁) (looked-errno conn s₁ e) ∙ same)
            ])
      ]
