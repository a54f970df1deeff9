-- ===== src/Loop/Serve/Released.antt =====
-- `loop` of loop.h gives back what its connection holds.
use sponsoryeet.State.Bag.{Bag, empty, both, both-empty}
use sponsoryeet.Prelude.{
  ℕ, zero, suc, ◌≡◌, refl, sym, ap, ◌∙◌, Bool, true, false, [], not, ◌&&◌, ◌||◌, Bool-cases, inl,
  inr, if◌then◌else◌, ◌==◌, ℤ, pos,
}
use sponsoryeet.Cast.Protobuf.{Protobuf}
use sponsoryeet.Cast.Message.{CastMessage}
use sponsoryeet.State.{Address, Double, Os, Matcher, Machine, Action, return, call}
use sponsoryeet.State.World.{KeepsWorld, choose-KeepsWorld, Spares}
use sponsoryeet.Connection.{Connection, ping_interval, read, open_connection, close_connection}
use sponsoryeet.Connection
use sponsoryeet.Connection.Released.{
  Holds, owned, settled, open_connection-holds, connect-holds, close_connection-holds,
}
use sponsoryeet.Chromecast.{
  send_simple, send_simple_media, connection, receiver, ping, heartbeat, get_status, media,
  MessageType, Namespace,
}
use sponsoryeet.Chromecast
use sponsoryeet.Mdns.Query.{Events, Net, is_negative, is_nothing, quits}
use sponsoryeet.Loop.Position.{current_position}
use sponsoryeet.Loop.Seek.Released.{current_position-held}
use sponsoryeet.Loop.Handle.{handle_message}
use sponsoryeet.Loop.Handle.Released.{handle_message-held}
use sponsoryeet.Loop.Serve.{
  is_space, after_select, take_incoming, ErrorNumbers, Incoming, body, refused, Served, again,
  leave, read_frame, toggle, ask_if_due, ping_if_due, take_message, serve_socket, serve_round,
  resume, serve, greet_and_serve, loop,
}
use sponsoryeet.Loop.Serve.Steady.{
  Stays, choose-Stays, read_frame-Stays, toggle-held, ask_if_due-held, ping_if_due-held, send-held,
}

-- The calls of `loop` that wait or look leave alone what is in use.
pub record Waits {W : Type 0} (net : Net W) (held : W → Bag) : Type 0 where
  pub runs : (w : W) → held (net.running w).1 ≡ held w
  pub selects : (fd : ℤ) (w : W) → held (net.select fd w).1 ≡ held w
  pub keys : (w : W) → held (net.getchar w).1 ≡ held w

-- The connection that a round goes on with, or that `loop` returns with.
abbrev connection_of : Served → Connection
connection_of (again conn) = conn
connection_of (leave code conn) = conn

-- What the connection holds that is still open.
abbrev pub still_open : Served → Bag
still_open (again conn) = owned conn
still_open (leave code conn) = empty

module _ {D W : Type 0} (double : Double D) (os : Os W) (m : Matcher D W) (p : Protobuf CastMessage)
    (net : Net W) (numbers : ErrorNumbers) (first : Bool) (held : W → Bag) (holds : Holds os held)
    (spares : Spares os m held) (waits : Waits net held) where
  abbrev Keeps : {A : Type 0} → Action D W A → Type 0
  Keeps = KeepsWorld held

  take_incoming-Stays :
      (after : Connection) (incoming : Incoming)
      → Stays held connection_of after
          (take_incoming double os m p net numbers first after incoming)
  unfolding take_incoming
  take_incoming-Stays after (refused code) s = (refl, refl)
  take_incoming-Stays after (body response) s =
      let (fine, s₁) = handle_message double os m p first after response s in
      let same = handle_message-held double os m p first held holds spares after response s in
      elim (Bool-cases (not fine || after.eof)) [
        | inl e ↦ rw e (same, refl)
        | inr e ↦ rw e (spares.times s₁.world ∙ same, refl)
      ]

  take_message-Stays :
      (conn : Connection)
      → Stays held connection_of conn (take_message double os m p net numbers first conn)
  unfolding take_message
  take_message-Stays conn s =
      let ((incoming, after), s₁) = read_frame os numbers conn s in
      let (same, own) = read_frame-Stays double os m p net numbers first held holds spares conn s in
      let (same', own') = take_incoming-Stays after incoming s₁ in (same' ∙ same, own' ∙ own)

  serve_socket-Stays :
      (events : Events) (conn : Connection)
      → Stays held connection_of conn (serve_socket double os m p net numbers first events conn)
  unfolding serve_socket
  serve_socket-Stays events conn s =
      let timeout : Action D W Bool = (λ t.
        ping_if_due double os m p net numbers first conn
          (ask_if_due double os m p net numbers first conn t).1) in
      let (pinged, s₁) = (if is_nothing events.count then timeout else return true) s in
      let same =
        choose-KeepsWorld held (is_nothing events.count) timeout (return true)
          (λ t.
            ping_if_due-held double os m p net numbers first held holds spares conn
              (ask_if_due double os m p net numbers first conn t).1
            ∙ ask_if_due-held double os m p net numbers first held holds spares conn t)
          (λ t. refl) s in
      let (same', own) =
        choose-Stays held connection_of conn (not pinged) (return (leave numbers.etimedout conn))
          (if not events.socket
            then return (again conn)
            else take_message double os m p net numbers first conn)
          (λ t. (refl, refl))
          (choose-Stays held connection_of conn (not events.socket) (return (again conn))
            (take_message double os m p net numbers first conn) (λ t. (refl, refl))
            (take_message-Stays conn))
          s₁ in
      (same' ∙ same, own)

  after_select-Stays :
      (events : Events) (conn : Connection)
      → Stays held connection_of conn (after_select double os m p net numbers first events conn)
  unfolding after_select
  after_select-Stays events conn s =
      let (key, s₁) = (if events.stdin then call net.getchar else return (pos 0)) s in
      let s₂ =
        ((if is_space key then toggle double os m p net numbers first conn else return tt) s₁).1 in
      let same =
        choose-KeepsWorld held events.stdin (call net.getchar) (return (pos 0))
          (λ t. waits.keys t.world) (λ t. refl) s in
      let toggled =
        choose-KeepsWorld held (is_space key) (toggle double os m p net numbers first conn)
          (return tt) (toggle-held double os m p net numbers first held holds spares conn)
          (λ t. refl) s₁ in
      let (same', own) = serve_socket-Stays events conn s₂ in
      elim (Bool-cases (quits key)) [
        | inl e ↦ rw e (same, refl)
        | inr e ↦ rw e (same' ∙ toggled ∙ same, own)
      ]

  serve_round-Stays :
      (conn : Connection)
      → Stays held connection_of conn (serve_round double os m p net numbers first conn)
  unfolding serve_round
  serve_round-Stays conn s =
      let (events, s₁) = call (net.select conn.fd) s in
      let s₂ = (current_position double os s₁).1 in
      let same =
        current_position-held double os p first held holds spares.times s₁
        ∙ waits.selects conn.fd s.world in
      let (same', own) = after_select-Stays events conn s₂ in
      elim (Bool-cases (is_negative events.count)) [
        | inl e ↦ rw e (same, refl)
        | inr e ↦ elim (Bool-cases (os.errno s₂.world == net.eintr)) [
          | inl f ↦ rw (e, f) (same, refl)
          | inr f ↦ rw (e, f) (same' ∙ same, own)
        ]
      ]

  resume-Stays :
      (more : Connection → Action D W Served) (next : Served)
      → ((conn : Connection) → Stays held connection_of conn (more conn))
      → Stays held connection_of
          (connection_of next)
          (resume double os m p net numbers first more next)
  unfolding resume
  resume-Stays more (again after) h = h after
  resume-Stays more (leave code after) h = λ s. (refl, refl)

  serve-Stays :
      (rounds : ℕ) (conn : Connection)
      → Stays held connection_of conn (serve double os m p net numbers first rounds conn)
  unfolding serve
  serve-Stays zero conn s = (refl, refl)
  serve-Stays (suc rounds) conn s =
      let (going, s₁) = call net.running s in
      let (next, s₂) = serve_round double os m p net numbers first conn s₁ in
      let ran = waits.runs s.world in
      let (same, own) = serve_round-Stays conn s₁ in
      let (same', own') =
        resume-Stays (serve double os m p net numbers first rounds) next (serve-Stays rounds) s₂ in
      elim (Bool-cases (not (s.globals.running && going) || conn.eof)) [
        | inl e ↦ rw e (ran, refl)
        | inr e ↦ rw e (same' ∙ same ∙ ran, own' ∙ own)
      ]

  greet_and_serve-Stays :
      (rounds : ℕ) (conn : Connection)
      → Stays held connection_of conn (greet_and_serve double os m p net numbers first rounds conn)
  unfolding greet_and_serve
  greet_and_serve-Stays rounds conn s =
      let (greeted, s₁) = send_simple double os p first conn Chromecast.connect connection s in
      let (asked, s₂) =
        (if greeted then send_simple double os p first conn get_status receiver else return false)
          s₁ in
      let (now, s₃) = call os.time s₂ in
      let sent =
        choose-KeepsWorld held greeted (send_simple double os p first conn get_status receiver)
          (return false)
          (send-held double os m p net numbers first held holds spares conn get_status receiver)
          (λ t. refl) s₁
        ∙ send-held double os m p net numbers first held holds spares conn Chromecast.connect
            connection s in
      let begun : Machine D W = record s₃ { globals = record s₃.globals { last_ping = now } } in
      let (same, own) = serve-Stays rounds conn begun in
      elim (Bool-cases (not asked)) [
        | inl e ↦ rw e (sent, refl)
        | inr e ↦ rw e (same ∙ spares.times s₂.world ∙ sent, own)
      ]

  -- How `loop` ends.
  abbrev finish : Served → Action D W Served
  finish served = elim served [
    | again after ↦ return (again after)
    | leave code after ↦ λ s. (leave code after, (close_connection os after s).1)
  ]

  finish-holds :
      (served : Served) (s : Machine D W) (n : Bag)
      → held s.world ≡ both (owned (connection_of served)) n
      → let (result, after) = finish served s in held after.world ≡ both (still_open result) n
  finish-holds (again conn) s n h = h
  finish-holds (leave code conn) s n h =
      close_connection-holds os held holds conn s n h ∙ sym (both-empty n)

  -- Once `loop` has returned, by whichever way, it has given back every context, handle and socket that
  -- it has taken, those of the downloads included; and as long as it serves, what its connection holds
  -- is all that is in use on top of what was before.
  pub loop-holds :
      (rounds : ℕ) (address : Address) (s : Machine D W)
      → let (result, after) = loop double os m p net numbers first rounds address s in
        held after.world ≡ both (still_open result) (held s.world)
  unfolding loop
  loop-holds rounds address s =
      let s₀ : Machine D W = record s { globals = record s.globals { dest = [] } } in
      let (opened, s₁) = open_connection os s₀ in
      let ((connected, conn), s₂) = Connection.connect os address opened s₁ in
      let (served, s₃) =
        (if connected
            then greet_and_serve double os m p net numbers first rounds conn
            else return (leave (os.errno s₂.world) conn))
          s₂ in
      let (took, unset) = open_connection-holds os held holds s₀ in
      let made_ = connect-holds os held holds address opened s₁ unset in
      let (same, own) =
        choose-Stays held connection_of conn connected
          (greet_and_serve double os m p net numbers first rounds conn)
          (return (leave (os.errno s₂.world) conn)) (greet_and_serve-Stays rounds conn)
          (λ t. (refl, refl)) s₂ in
      finish-holds served s₃ (held s.world) (
        same
        ∙ settled (held s.world) (held s₁.world) (held s₂.world) opened conn took made_
        ∙ ap (λ b. both b (held s.world)) (sym own))
