-- ===== src/Loop/Serve/Steady.antt =====
-- The reads of `loop` of loop.h, its keys and its timeouts take and free nothing.
use sponsoryeet.State.Bag.{Bag}
use sponsoryeet.Prelude.{
  ltb, ◌+◌, ℕ, ◌≡◌, refl, ◌∙◌, Bool, true, false, not, Bool-cases, inl, inr, if◌then◌else◌, ◌==◌,
  pos, length, Bytes, codes, bytes_eq, arith,
}
use sponsoryeet.Cast.Protobuf.{Protobuf}
use sponsoryeet.Cast.Message.{CastMessage}
use sponsoryeet.State.{Double, Os, Matcher, Machine, Action, return, call}
use sponsoryeet.State.World.{KeepsWorld, Spares}
use sponsoryeet.Connection.{Connection, ping_interval, read}
use sponsoryeet.Connection.Released.{Holds, owned}
use sponsoryeet.Chromecast.{
  send_simple, send_simple_media, ping, heartbeat, get_status, media, MessageType, Namespace,
}
use sponsoryeet.Chromecast.Frame.{from_big_endian}
use sponsoryeet.Chromecast.Released.{send_simple-held, send_simple_media-held}
use sponsoryeet.Mdns.Query.{Net}
use sponsoryeet.Loop.Position.{minus_one, nought}
use sponsoryeet.Loop.Serve.{
  ErrorNumbers, body, refused, read_body, read_frame, message_limit, toggle, ask_if_due,
  ping_if_due,
}

-- The connection that comes with a result.
abbrev behind : {A : Type 0} → A × Connection → Connection
behind r = r.1

module _ {D W : Type 0} (held : W → Bag) where
  -- An action that changes neither what is in use nor what the connection holds.
  abbrev pub Stays : {A : Type 0} → (A → Connection) → Connection → Action D W A → Type 0
  Stays of conn x =
      (s : Machine D W) → (held (x s).1.world ≡ held s.world) × (owned (of (x s).0) ≡ owned conn)

  pub choose-Stays :
      {A : Type 0} (of : A → Connection) (conn : Connection) (b : Bool) (x y : Action D W A)
      → Stays of conn x
      → Stays of conn y
      → Stays of conn (if b then x else y)
  choose-Stays of conn true x y h k = h
  choose-Stays of conn false x y h k = k

module _ {D W : Type 0} (double : Double D) (os : Os W) (m : Matcher D W) (p : Protobuf CastMessage)
    (net : Net W) (numbers : ErrorNumbers) (first : Bool) (held : W → Bag) (holds : Holds os held)
    (spares : Spares os m held) where
  abbrev Keeps : {A : Type 0} → Action D W A → Type 0
  Keeps = KeepsWorld held

  read-Stays : (size : ℕ) (conn : Connection) → Stays {D = D} held behind conn (read os size conn)
  unfolding read
  read-Stays size conn s =
      let ((amount, buffer), w) = os.ssl_read conn.handle size s.world in
      (holds.reads conn.handle size s.world, ground arith)

  read_body-Stays :
      (size : ℕ) (conn : Connection)
      → Stays {D = D} held behind conn (read_body os numbers size conn)
  unfolding read_body
  read_body-Stays size conn =
      choose-Stays held behind conn (ltb message_limit size)
        (return (refused numbers.ebadmsg, conn))
        (λ t.
          let ((response, after), t') = read os size conn t in
          (
            (
              (if ltb (length response) size then refused numbers.ebadmsg else body response),
              after,
            ),
            t',
          ))
        (λ t. (refl, refl)) (λ t. read-Stays size conn t)

  pub read_frame-Stays :
      (conn : Connection) → Stays {D = D} held behind conn (read_frame os numbers conn)
  unfolding read_frame
  read_frame-Stays conn s =
      let ((size, after), s₁) = read os 4 conn s in
      let (same, own) = read-Stays 4 conn s in
      let (same', own') = read_body-Stays (from_big_endian size) after s₁ in
      elim (Bool-cases (not (length size == 4))) [
        | inl e ↦ rw e (same, own)
        | inr e ↦ elim (Bool-cases after.eof) [
          | inl f ↦ rw (e, f) (same, own)
          | inr f ↦ rw (e, f) (same' ∙ same, own' ∙ own)
        ]
      ]

  send_media-held :
      (conn : Connection) (command : Bytes)
      → Keeps (send_simple_media double os p first conn command)
  send_media-held = send_simple_media-held double os p first held holds

  pub send-held :
      (conn : Connection) (type : MessageType) (urn : Namespace)
      → Keeps (send_simple double os p first conn type urn)
  send-held = send_simple-held double os p first held holds

  pub toggle-held : (conn : Connection) → Keeps (toggle double os m p net numbers first conn)
  unfolding toggle
  toggle-held conn s = elim (Bool-cases (bytes_eq s.globals.current_status (codes "PLAYING"))) [
    | inl e ↦ rw e (send_media-held conn (codes "PAUSE") s)
    | inr e ↦ elim (Bool-cases (bytes_eq s.globals.current_status (codes "PAUSED"))) [
      | inl f ↦ rw (e, f) (send_media-held conn (codes "PLAY") s)
      | inr f ↦ rw (e, f) refl
    ]
  ]

  pub ask_if_due-held :
      (conn : Connection) → Keeps (ask_if_due double os m p net numbers first conn)
  unfolding ask_if_due
  ask_if_due-held conn s =
      let asked = λ (w : W). send-held conn get_status media (record {
        globals = record s.globals { next_segment_start = minus_one double };
        world = w;
      }) in
      let now = os.time s.world in
      let same = spares.times s.world in
      elim (Bool-cases (double.lt (nought double) s.globals.next_segment_start)) [
        | inl e ↦
            elim (Bool-cases (double.le s.globals.next_segment_start (double.of_int (pos now.0)))) [
              | inl f ↦ rw (e, f) (asked now.1 ∙ same)
              | inr f ↦ rw (e, f) same
            ]
        | inr e ↦ rw e refl
      ]

  pub ping_if_due-held :
      (conn : Connection) → Keeps (ping_if_due double os m p net numbers first conn)
  unfolding ping_if_due
  ping_if_due-held conn s =
      let (now, s₁) = call os.time s in
      let (done, s₂) = send_simple double os p first conn ping heartbeat s₁ in
      let same = spares.times s.world in
      let sent = send-held conn ping heartbeat s₁ ∙ same in
      elim (Bool-cases (ltb (s.globals.last_ping + ping_interval) now)) [
        | inl e ↦ elim (Bool-cases done) [
          | inl f ↦ rw (e, f) (spares.times s₂.world ∙ sent)
          | inr f ↦ rw (e, f) sent
        ]
        | inr e ↦ rw e same
      ]
