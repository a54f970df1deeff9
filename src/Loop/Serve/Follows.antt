-- ===== src/Loop/Serve/Follows.antt =====
-- What holds of every change that `loop` of loop.h makes, from what holds of a message.
use sponsoryeet.Prelude.{
  ltb, ◌+◌, ℕ, ◌≡◌, refl, ap, ◌∙◌, Bool, true, not, ◌||◌, Bool-cases, inl, inr, List, if◌then◌else◌,
  ◌==◌, pos, length, Bytes, codes, bytes_eq, arith,
}
use sponsoryeet.Cast.Protobuf.{Protobuf}
use sponsoryeet.Cast.Message.{CastMessage}
use sponsoryeet.State.{Double, Globals, Os, Matcher, Action, return, call}
use sponsoryeet.State.View.{KeepsView, choose-KeepsView}
use sponsoryeet.State.Follows.{Covers, Follows, choose-Follows}
use sponsoryeet.Connection.{Connection, ping_interval, read}
use sponsoryeet.Chromecast.{
  send_simple, send_simple_media, ping, heartbeat, get_status, media, MessageType, Namespace,
}
use sponsoryeet.Chromecast.Frame.{from_big_endian}
use sponsoryeet.Chromecast.Effects.{send_simple-globals, send_simple_media-globals}
use sponsoryeet.Mdns.Query.{Events, Net, is_nothing}
use sponsoryeet.Loop.Position.{minus_one, nought}
use sponsoryeet.Loop.Handle.{handle_message}
use sponsoryeet.Loop.Handle.Kept.{Watched, watched}
use sponsoryeet.Loop.Serve.{
  take_incoming, ErrorNumbers, Incoming, body, refused, again, leave, read_body, read_frame, toggle,
  ask_if_due, ping_if_due, take_message, serve_socket,
}

-- What the rounds leave alone but for the messages and the keys: whether the program runs, the options
-- of the user, and what is watched.
pub record Lasting (D : Type 0) : Type 0 where
  pub running : Bool
  pub verbose : Bool
  pub adblock : Bool
  pub categories : List Bytes
  pub watched : Watched D

abbrev pub lasting : {D : Type 0} → Globals D → Lasting D
lasting g = record {
  running = g.running;
  verbose = g.verbose;
  adblock = g.adblock;
  categories = g.categories;
  watched = watched g;
}

module _ {D W : Type 0} (double : Double D) (os : Os W) (m : Matcher D W) (p : Protobuf CastMessage)
    (net : Net W) (numbers : ErrorNumbers) (first : Bool) where
  abbrev Keeps : {A : Type 0} → Action D W A → Type 0
  Keeps = KeepsView lasting

  read_body-Keeps : (size : ℕ) (conn : Connection) → Keeps (read_body os numbers size conn)
  unfolding read_body read
  read_body-Keeps size conn s = ground arith

  read_frame-Keeps : (conn : Connection) → Keeps (read_frame os numbers conn)
  unfolding read_frame read
  read_frame-Keeps conn s =
      let ((size, after), s₁) = read os 4 conn s in
      elim (Bool-cases (not (length size == 4))) [
        | inl e ↦ rw e refl
        | inr e ↦ rw e (
            choose-KeepsView lasting after.eof (return (refused numbers.econnreset, after))
              (read_body os numbers (from_big_endian size) after) (λ t. refl)
              (read_body-Keeps (from_big_endian size) after) s₁)
      ]

  send_media-Keeps :
      (conn : Connection) (command : Bytes)
      → Keeps (send_simple_media double os p first conn command)
  send_media-Keeps conn command s =
      ap lasting (send_simple_media-globals double os p first conn command s)

  pub toggle-Keeps : (conn : Connection) → Keeps (toggle double os m p net numbers first conn)
  unfolding toggle
  toggle-Keeps conn s = elim (Bool-cases (bytes_eq s.globals.current_status (codes "PLAYING"))) [
    | inl e ↦ rw e (send_media-Keeps conn (codes "PAUSE") s)
    | inr e ↦ elim (Bool-cases (bytes_eq s.globals.current_status (codes "PAUSED"))) [
      | inl f ↦ rw (e, f) (send_media-Keeps conn (codes "PLAY") s)
      | inr f ↦ rw (e, f) refl
    ]
  ]

  send_simple-Keeps :
      (conn : Connection) (type : MessageType) (urn : Namespace)
      → Keeps (send_simple double os p first conn type urn)
  send_simple-Keeps conn type urn s =
      ap lasting (send_simple-globals double os p first conn type urn s)

  ask_if_due-Keeps : (conn : Connection) → Keeps (ask_if_due double os m p net numbers first conn)
  unfolding ask_if_due
  ask_if_due-Keeps conn s =
      let asked = λ (w : W). send_simple-Keeps conn get_status media (record {
        globals = record s.globals { next_segment_start = minus_one double };
        world = w;
      }) in
      let now = os.time s.world in
      elim (Bool-cases (double.lt (nought double) s.globals.next_segment_start)) [
        | inl e ↦
            elim (Bool-cases (double.le s.globals.next_segment_start (double.of_int (pos now.0)))) [
              | inl f ↦ rw (e, f) (asked now.1)
              | inr f ↦ rw (e, f) refl
            ]
        | inr e ↦ rw e refl
      ]

  ping_if_due-Keeps : (conn : Connection) → Keeps (ping_if_due double os m p net numbers first conn)
  unfolding ping_if_due
  ping_if_due-Keeps conn s =
      let (now, s₁) = call os.time s in
      let sent = send_simple-Keeps conn ping heartbeat s₁ in
      elim (Bool-cases (ltb (s.globals.last_ping + ping_interval) now)) [
        | inl e ↦ elim (Bool-cases (send_simple double os p first conn ping heartbeat s₁).0) [
          | inl f ↦ rw (e, f) sent
          | inr f ↦ rw (e, f) sent
        ]
        | inr e ↦ rw e refl
      ]

  module _ (R : Globals D → Globals D → Type 0) (covers : Covers lasting R)
      (messages : (conn : Connection) (input : Bytes)
        → Follows R (handle_message double os m p first conn input)) where
    -- A change behind an action that changes nothing, and one before such an action.
    after_quiet : (g h k : Globals D) → lasting h ≡ lasting g → R h k → R g k
    after_quiet g h k e r = covers.follow g h k (covers.quiet g h e) r

    before_quiet : (g h k : Globals D) → R g h → lasting k ≡ lasting h → R g k
    before_quiet g h k r e = covers.follow g h k r (covers.quiet h k e)

    nothing : (g : Globals D) → R g g
    nothing g = covers.quiet g g refl

    take_body-Follows :
        (after : Connection) (incoming : Incoming)
        → Follows R (take_incoming double os m p net numbers first after incoming)
    unfolding take_incoming
    take_body-Follows after (refused code) s = nothing s.globals
    take_body-Follows after (body response) s =
        let (fine, s₁) = handle_message double os m p first after response s in
        let done = messages after response s in
        elim (Bool-cases (not fine || after.eof)) [
          | inl e ↦ rw e done
          | inr e ↦ rw e (before_quiet s.globals s₁.globals _ done refl)
        ]

    take_message-Follows :
        (conn : Connection) → Follows R (take_message double os m p net numbers first conn)
    unfolding take_message
    take_message-Follows conn s =
        let ((incoming, after), s₁) = read_frame os numbers conn s in
        after_quiet s.globals s₁.globals _ (read_frame-Keeps conn s)
          (take_body-Follows after incoming s₁)

    pub serve_socket-Follows :
        (events : Events) (conn : Connection)
        → Follows R (serve_socket double os m p net numbers first events conn)
    unfolding serve_socket
    serve_socket-Follows events conn s =
        let timeout : Action D W Bool = (λ t.
          ping_if_due double os m p net numbers first conn
            (ask_if_due double os m p net numbers first conn t).1) in
        let (pinged, s₁) = (if is_nothing events.count then timeout else return true) s in
        let same =
          choose-KeepsView lasting (is_nothing events.count) timeout (return true)
            (λ t.
              ping_if_due-Keeps conn (ask_if_due double os m p net numbers first conn t).1
              ∙ ask_if_due-Keeps conn t)
            (λ t. refl) s in
        let taken =
          choose-Follows R (not events.socket) (return (again conn))
            (take_message double os m p net numbers first conn) (λ t. nothing t.globals)
            (take_message-Follows conn) in
        after_quiet s.globals s₁.globals _ same (
          choose-Follows R (not pinged) (return (leave numbers.etimedout conn))
            (if not events.socket
              then return (again conn)
              else take_message double os m p net numbers first conn)
            (λ t. nothing t.globals) taken s₁)
