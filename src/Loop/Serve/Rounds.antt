-- ===== src/Loop/Serve/Rounds.antt =====
-- What holds of every change that the rounds of `loop` of loop.h make, from what holds of a message and
-- of a key that ends the program.
use sponsoryeet.Prelude.{
  ℕ, zero, suc, ◌≡◌, refl, ap, ◌∙◌, Bool, false, not, ◌&&◌, ◌||◌, Bool-cases, inl, inr,
  if◌then◌else◌, ◌==◌, pos, Bytes,
}
use sponsoryeet.Cast.Protobuf.{Protobuf}
use sponsoryeet.Cast.Message.{CastMessage}
use sponsoryeet.State.{Double, Globals, Os, Matcher, Action, return, call}
use sponsoryeet.State.View.{choose-KeepsView}
use sponsoryeet.State.Follows.{Covers, Follows}
use sponsoryeet.Connection.{Connection}
use sponsoryeet.Mdns.Query.{Events, Net, is_negative, quits}
use sponsoryeet.Loop.Position.{current_position}
use sponsoryeet.Loop.Position.Answers.{current_position-globals}
use sponsoryeet.Loop.Handle.{handle_message}
use sponsoryeet.Loop.Serve.{
  is_space, after_select, ErrorNumbers, Served, again, leave, toggle, serve_round, resume, serve,
}
use sponsoryeet.Loop.Serve.Follows.{lasting, toggle-Keeps, serve_socket-Follows}

module _ {D W : Type 0} (double : Double D) (os : Os W) (m : Matcher D W) (p : Protobuf CastMessage)
    (net : Net W) (numbers : ErrorNumbers) (first : Bool) (R : Globals D → Globals D → Type 0)
    (covers : Covers lasting R)
    (messages : (conn : Connection) (input : Bytes)
      → Follows R (handle_message double os m p first conn input))
    (stops : (g : Globals D) → R g (record g { running = false })) where
  -- A change behind an action that changes nothing.
  after_quiet : (g h k : Globals D) → lasting h ≡ lasting g → R h k → R g k
  after_quiet g h k e r = covers.follow g h k (covers.quiet g h e) r

  nothing : (g : Globals D) → R g g
  nothing g = covers.quiet g g refl

  after_select-Follows :
      (events : Events) (conn : Connection)
      → Follows R (after_select double os m p net numbers first events conn)
  unfolding after_select
  after_select-Follows events conn s =
      let (key, s₁) = (if events.stdin then call net.getchar else return (pos 0)) s in
      let s₂ =
        ((if is_space key then toggle double os m p net numbers first conn else return tt) s₁).1 in
      let same =
        choose-KeepsView lasting events.stdin (call net.getchar) (return (pos 0)) (λ t. refl)
          (λ t. refl) s in
      let toggled =
        choose-KeepsView lasting (is_space key) (toggle double os m p net numbers first conn)
          (return tt) (toggle-Keeps double os m p net numbers first conn) (λ t. refl) s₁ in
      elim (Bool-cases (quits key)) [
        | inl e ↦ rw e (after_quiet s.globals s₁.globals _ same (stops s₁.globals))
        | inr e ↦ rw e (
            after_quiet s.globals s₂.globals _ (toggled ∙ same) (
              serve_socket-Follows double os m p net numbers first R covers messages events conn
                s₂))
      ]

  serve_round-Follows :
      (conn : Connection) → Follows R (serve_round double os m p net numbers first conn)
  unfolding serve_round
  serve_round-Follows conn s =
      let (events, s₁) = call (net.select conn.fd) s in
      let s₂ = (current_position double os s₁).1 in
      let same = ap lasting (current_position-globals double os s₁) in
      let looked = covers.quiet s.globals s₂.globals same in
      elim (Bool-cases (is_negative events.count)) [
        | inl e ↦ rw e looked
        | inr e ↦ elim (Bool-cases (os.errno s₂.world == net.eintr)) [
          | inl f ↦ rw (e, f) looked
          | inr f ↦
              rw (e, f)
                (after_quiet s.globals s₂.globals _ same (after_select-Follows events conn s₂))
        ]
      ]

  resume-Follows :
      (more : Connection → Action D W Served) (next : Served)
      → ((conn : Connection) → Follows R (more conn))
      → Follows R (resume double os m p net numbers first more next)
  unfolding resume
  resume-Follows more (again after) h = h after
  resume-Follows more (leave code after) h = λ s. nothing s.globals

  pub serve-Follows :
      (rounds : ℕ) (conn : Connection)
      → Follows R (serve double os m p net numbers first rounds conn)
  unfolding serve
  serve-Follows zero conn s = nothing s.globals
  serve-Follows (suc rounds) conn s =
      let (going, s₁) = call net.running s in
      let (next, s₂) = serve_round double os m p net numbers first conn s₁ in
      let rest =
        resume-Follows (serve double os m p net numbers first rounds) next (serve-Follows rounds)
          s₂ in
      elim (Bool-cases (not (s.globals.running && going) || conn.eof)) [
        | inl e ↦ rw e (nothing s.globals)
        | inr e ↦ rw e (covers.follow s.globals s₂.globals _ (serve_round-Follows conn s₁) rest)
      ]
