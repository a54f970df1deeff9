-- ===== src/Loop/Serve/Quit.antt =====
-- What the rounds of loop.h do with a key that ends the program.
use sponsoryeet.Prelude.{
  ℕ, zero, suc, ◌≡◌, ◌⊎◌, refl, sym, ap, ◌∙◌, subst, Bool, true, false, not, ◌&&◌, ◌||◌, Bool-cases,
  Option, none, some, inl, inr, [], if◌then◌else◌, ◌==◌, pos,
}
use sponsoryeet.Cast.Protobuf.{Protobuf}
use sponsoryeet.Cast.Message.{CastMessage}
use sponsoryeet.State.{Address, Double, Globals, Os, Matcher, Machine, Action, return, call}
use sponsoryeet.State.View.{KeepsView, choose-KeepsView}
use sponsoryeet.Connection.{Connection, open_connection, close_connection}
use sponsoryeet.Connection
use sponsoryeet.Connection.Globals.{close_connection-globals, connect-globals}
use sponsoryeet.Chromecast.{send_simple, connection, receiver, get_status, MessageType, Namespace}
use sponsoryeet.Chromecast
use sponsoryeet.Chromecast.Effects.{send_simple-globals}
use sponsoryeet.Mdns.Query.{Events, Net, is_negative, quits}
use sponsoryeet.Loop.Position.{current_position}
use sponsoryeet.Loop.Position.Answers.{current_position-globals}
use sponsoryeet.Loop.Handle.Kept.{Settings}
use sponsoryeet.Loop.Handle.Settings.{handle_message-settings}
use sponsoryeet.Loop.Serve.{
  is_space, after_select, ErrorNumbers, Served, again, leave, toggle, serve_socket, serve_round,
  resume, serve, greet_and_serve, loop,
}
use sponsoryeet.Loop.Serve.Follows.{Lasting, toggle-Keeps, serve_socket-Follows}

-- The program runs on, or a key has ended it, and the value that is returned is 0.
abbrev pub Goes : {D : Type 0} → Option ℕ → Globals D → Type 0
Goes code g = (g.running ≡ true) ⊎ ((g.running ≡ false) × (code ≡ some 0))

-- What `loop` returns, if it does.
abbrev pub code_of : Served → Option ℕ
code_of (again conn) = none
code_of (leave code conn) = some code

module _ {D W : Type 0} (double : Double D) (os : Os W) (m : Matcher D W) (p : Protobuf CastMessage)
    (net : Net W) (numbers : ErrorNumbers) (first : Bool) where
  abbrev running_of : Globals D → Bool
  running_of g = g.running

  abbrev of_lasting : Lasting D → Bool
  of_lasting l = l.running

  abbrev of_settings : Settings → Bool
  of_settings st = st.running

  -- An action that begins while the program runs.
  abbrev Ends : Action D W Served → Type 0
  Ends x = (s : Machine D W) → s.globals.running ≡ true → Goes (code_of (x s).0) (x s).1.globals

  choose-Ends : (b : Bool) (x y : Action D W Served) → Ends x → Ends y → Ends (if b then x else y)
  choose-Ends true x y h k = h
  choose-Ends false x y h k = k

  serve_socket-Keeps :
      (events : Events) (conn : Connection)
      → KeepsView running_of (serve_socket double os m p net numbers first events conn)
  serve_socket-Keeps =
      serve_socket-Follows double os m p net numbers first (λ g h. h.running ≡ g.running)
        (record { quiet = λ g h e. ap of_lasting e; follow = λ g h k a b. b ∙ a })
        (λ conn input s. ap of_settings (handle_message-settings double os m p first conn input s))

  after_select-Ends :
      (events : Events) (conn : Connection)
      → Ends (after_select double os m p net numbers first events conn)
  unfolding after_select
  after_select-Ends events conn s h =
      let (key, s₁) = (if events.stdin then call net.getchar else return (pos 0)) s in
      let s₂ =
        ((if is_space key then toggle double os m p net numbers first conn else return tt) s₁).1 in
      let same =
        choose-KeepsView running_of events.stdin (call net.getchar) (return (pos 0)) (λ t. refl)
          (λ t. refl) s in
      let toggled =
        choose-KeepsView running_of (is_space key) (toggle double os m p net numbers first conn)
          (return tt) (λ t. ap of_lasting (toggle-Keeps double os m p net numbers first conn t))
          (λ t. refl) s₁ in
      elim (Bool-cases (quits key)) [
        | inl e ↦ rw e (inr (refl, refl))
        | inr e ↦ rw e (inl (serve_socket-Keeps events conn s₂ ∙ toggled ∙ same ∙ h))
      ]

  serve_round-Ends : (conn : Connection) → Ends (serve_round double os m p net numbers first conn)
  unfolding serve_round
  serve_round-Ends conn s h =
      let (events, s₁) = call (net.select conn.fd) s in
      let s₂ = (current_position double os s₁).1 in
      let same = ap running_of (current_position-globals double os s₁) ∙ h in
      elim (Bool-cases (is_negative events.count)) [
        | inl e ↦ rw e (inl same)
        | inr e ↦ elim (Bool-cases (os.errno s₂.world == net.eintr)) [
          | inl f ↦ rw (e, f) (inl same)
          | inr f ↦ rw (e, f) (after_select-Ends events conn s₂ same)
        ]
      ]

  resume-Ends :
      (more : Connection → Action D W Served) (next : Served) (s : Machine D W)
      → ((conn : Connection) → Ends (more conn))
      → Goes (code_of next) s.globals
      → let (served, after) = resume double os m p net numbers first more next s in
        Goes (code_of served) after.globals
  unfolding resume
  resume-Ends more (again conn) s h (inl r) = h conn s r
  resume-Ends more (again conn) s h (inr (r, e)) = cc e
  resume-Ends more (leave code conn) s h r = r

  serve-Ends :
      (rounds : ℕ) (conn : Connection) → Ends (serve double os m p net numbers first rounds conn)
  unfolding serve
  serve-Ends zero conn s h = inl h
  serve-Ends (suc rounds) conn s h =
      let (going, s₁) = call net.running s in
      let (next, s₂) = serve_round double os m p net numbers first conn s₁ in
      let rest =
        resume-Ends (serve double os m p net numbers first rounds) next s₂ (serve-Ends rounds)
          (serve_round-Ends conn s₁ h) in
      elim (Bool-cases (not (s.globals.running && going) || conn.eof)) [
        | inl e ↦ rw e (inl h)
        | inr e ↦ rw e rest
      ]

  greeting-Keeps :
      (conn : Connection) (type : MessageType) (urn : Namespace)
      → KeepsView running_of (send_simple double os p first conn type urn)
  greeting-Keeps conn type urn s =
      ap running_of (send_simple-globals double os p first conn type urn s)

  greet_and_serve-Ends :
      (rounds : ℕ) (conn : Connection)
      → Ends (greet_and_serve double os m p net numbers first rounds conn)
  unfolding greet_and_serve
  greet_and_serve-Ends rounds conn s h =
      let (greeted, s₁) = send_simple double os p first conn Chromecast.connect connection s in
      let (asked, s₂) =
        (if greeted then send_simple double os p first conn get_status receiver else return false)
          s₁ in
      let (now, s₃) = call os.time s₂ in
      let begun : Machine D W = record s₃ { globals = record s₃.globals { last_ping = now } } in
      let same =
        choose-KeepsView running_of greeted (send_simple double os p first conn get_status receiver)
          (return false) (greeting-Keeps conn get_status receiver) (λ t. refl) s₁
        ∙ greeting-Keeps conn Chromecast.connect connection s
        ∙ h in
      elim (Bool-cases (not asked)) [
        | inl e ↦ rw e (inl same)
        | inr e ↦ rw e (serve-Ends rounds conn begun same)
      ]

  -- How `loop` ends.
  abbrev finish : Served → Action D W Served
  finish served = elim served [
    | again after ↦ return (again after)
    | leave code after ↦ λ t. (leave code after, (close_connection os after t).1)
  ]

  finish-Goes :
      (served : Served) (s : Machine D W)
      → Goes (code_of served) s.globals
      → Goes (code_of (finish served s).0) (finish served s).1.globals
  finish-Goes (again after) s r = r
  finish-Goes (leave code after) s r =
      subst (λ g. Goes (some code) g) (sym (close_connection-globals os after s)) r

  -- Whoever is connected to, however long: the variable is cleared only by a key, and then 0 is
  -- returned.
  pub loop-Ends :
      (rounds : ℕ) (address : Address) → Ends (loop double os m p net numbers first rounds address)
  unfolding loop open_connection
  loop-Ends rounds address s h =
      let s₀ : Machine D W = record s { globals = record s.globals { dest = [] } } in
      let (opened, s₁) = open_connection os s₀ in
      let ((connected, conn), s₂) = Connection.connect os address opened s₁ in
      let greet = greet_and_serve double os m p net numbers first rounds conn in
      let failed = return (leave (os.errno s₂.world) conn) in
      let (served, s₃) = (if connected then greet else failed) s₂ in
      let same = ap running_of (connect-globals os address opened s₁) ∙ h in
      finish-Goes served s₃ (
        choose-Ends connected greet failed (greet_and_serve-Ends rounds conn) (λ t r. inl r) s₂
          same)
