-- ===== src/Loop/Serve/Heartbeat.antt =====
-- How the rounds of loop.h answer a ping.
use sponsoryeet.Prelude.{
  ℕ, ltb, ◌^◌, ◌<◌, ◌≤◌, ◌≡◌, refl, ap, ◌∙◌, Bool, false, not, ◌==◌, length, Bytes, Bool-cases, inl,
  inr,
}
use sponsoryeet.Cast.Protobuf.{Protobuf, IsProtobuf}
use sponsoryeet.Cast.Message.{CastMessage, size_content}
use sponsoryeet.Cast.Message.Written.{IsSendable}
use sponsoryeet.State.{Double, Os, Matcher, Machine, return}
use sponsoryeet.State.View.{KeepsView, choose-KeepsView}
use sponsoryeet.Connection.{Connection, read}
use sponsoryeet.Chromecast.Frame.{from_big_endian}
use sponsoryeet.Mdns.Query.{Net}
use sponsoryeet.Loop.Handle.Heartbeat.{IsPing, IsPong, pong_message, handle_message-ping}
use sponsoryeet.Loop.Serve.{
  ErrorNumbers, again, body, refused, message_limit, read_body, read_frame, take_incoming,
  take_message,
}
use sponsoryeet.Loop.Serve.Frames.{Arrives, read_frame-delivered}

module _ {D W : Type 0} (double : Double D) (os : Os W) (m : Matcher D W) (p : Protobuf CastMessage)
    (laws : IsProtobuf p) (net : Net W) (numbers : ErrorNumbers) (first : Bool) where
  read_body-globals :
      (size : ℕ) (conn : Connection) → KeepsView {D = D} (λ g. g) (read_body os numbers size conn)
  unfolding read_body read
  read_body-globals size conn s = elim (Bool-cases (ltb message_limit size)) [
    | inl e ↦ rw e refl
    | inr e ↦ rw e refl
  ]

  read_frame-globals : (conn : Connection) → KeepsView {D = D} (λ g. g) (read_frame os numbers conn)
  unfolding read_frame read
  read_frame-globals conn s =
      let ((size, after), s₁) = read os 4 conn s in
      elim (Bool-cases (not (length size == 4))) [
        | inl e ↦ rw e refl
        | inr e ↦ rw e (
            choose-KeepsView (λ g. g) after.eof (return (refused numbers.econnreset, after))
              (read_body os numbers (from_big_endian size) after) (λ t. refl)
              (read_body-globals (from_big_endian size) after) s₁)
      ]

  take_body-ping :
      (conn : Connection) (input : Bytes) (message old : CastMessage) (s : Machine D W)
      → conn.eof ≡ false
      → IsPing os m p input message
      → IsSendable p (pong_message double os m p laws first s.globals)
      → size_content p (pong_message double os m p laws first s.globals) < 2 ^ 31
      → (frame : Bytes) × IsPong double os m p laws first s.globals old frame
        × (let written = (os.ssl_write conn.handle frame s.world).1 in
            let (now, w) = os.time written in
            take_incoming double os m p net numbers first conn (body input) s
            ≡ (again conn, record { globals = record s.globals { last_ping = now }; world = w }))
  take_body-ping conn input message old s alive ping h small =
      let (frame, is_pong, handled) =
        handle_message-ping double os m p laws first conn input message old s ping h small in
      (frame, is_pong, unfold take_incoming in rw (handled, alive) refl)

  -- Let the two reads of a round deliver a frame of at most 64 KB that is read as a ping, over a
  -- connection that is not at its end, and let the answer have only texts that are UTF-8 without zero
  -- bytes, and less than 2^31 bytes. Then the round makes one write, of a frame whose size is right and
  -- which a reader takes for the answer, it notes the time as the last sign of life, and it changes no
  -- other variable; the connection is served on as it was.
  pub take_message-ping :
      (conn : Connection) (size input : Bytes) (message old : CastMessage) (s : Machine D W)
      → conn.eof ≡ false
      → Arrives os conn s.world size input
      → from_big_endian size ≡ length input
      → 0 < length input
      → length input ≤ message_limit
      → IsPing os m p input message
      → IsSendable p (pong_message double os m p laws first s.globals)
      → size_content p (pong_message double os m p laws first s.globals) < 2 ^ 31
      → (frame : Bytes) × IsPong double os m p laws first s.globals old frame
        × (let received = (read_frame os numbers conn s).1.world in
            let (now, w) = os.time (os.ssl_write conn.handle frame received).1 in
            take_message double os m p net numbers first conn s
            ≡ (again conn, record { globals = record s.globals { last_ping = now }; world = w }))
  take_message-ping conn size input message old s alive arrives sized some few ping h small =
      let received = (read_frame os numbers conn s).1.world in
      let read_whole =
        read_frame-delivered os numbers conn size input s alive arrives sized some few in
      let same = read_frame-globals conn s in
      let (frame, is_pong, done) =
        take_body-ping conn input message old (record { globals = s.globals; world = received })
          alive ping h small in
      let taken : take_message double os m p net numbers first conn s
          ≡ take_incoming double os m p net numbers first conn (body input)
              (record { globals = s.globals; world = received }) =
        unfold take_message in
        (ap
            (λ r.
              take_incoming double os m p net numbers first r.1 r.0
                (read_frame os numbers conn s).1)
            read_whole
          ∙ ap
              (λ g.
                take_incoming double os m p net numbers first conn (body input)
                  (record { globals = g; world = received }))
              same) in
      (frame, is_pong, taken ∙ done)
