-- ===== src/Loop/Handle/Heartbeat.antt =====
-- How `handleMessage` of loop.h answers a ping.
use sponsoryeet.Prelude.{
  ◌^◌, ◌<◌, ◌≡◌, refl, ap, ◌∙◌, Bool, true, false, length, drop, Bytes, codes, is_empty,
}
use sponsoryeet.Cast.Protobuf.{Protobuf, IsProtobuf}
use sponsoryeet.Cast.Message.{CastMessage, size_content, parse_message}
use sponsoryeet.Cast.Message.Written.{IsSendable}
use sponsoryeet.State.{Double, Globals, Os, Matcher, Machine}
use sponsoryeet.Connection.{Connection, write}
use sponsoryeet.Extract.{regex_extract}
use sponsoryeet.Chromecast.{namespace_text, message_text, heartbeat, pong, outgoing, send_simple}
use sponsoryeet.Chromecast.Frame.{from_big_endian, send_message-frame}
use sponsoryeet.Loop.Handle.{blank, type_regex, handle_heartbeat, dispatch, handle_message}

-- The text is read as a ping of the heartbeat.
pub record IsPing {D W : Type 0} (os : Os W) (m : Matcher D W) (p : Protobuf CastMessage)
    (input : Bytes) (message : CastMessage) : Type 0 where
  pub parsed : parse_message p input blank ≡ (true, message)
  pub in_namespace : message.namespace ≡ namespace_text heartbeat
  pub some_text : is_empty message.payload_utf8 ≡ false
  pub type : regex_extract os m type_regex message.payload_utf8 ≡ codes "PING"

module _ {D W : Type 0} (double : Double D) (os : Os W) (m : Matcher D W) (p : Protobuf CastMessage)
    (laws : IsProtobuf p) (first : Bool) where
  -- The answer to a ping.
  abbrev pub pong_message : Globals D → CastMessage
  pong_message g = outgoing g.dest (namespace_text heartbeat) (message_text pong)

  -- The bytes are a frame that a reader takes for the answer.
  abbrev pub IsPong : Globals D → CastMessage → Bytes → Type 0
  IsPong g old frame =
      (from_big_endian frame ≡ length (drop 4 frame))
      × (parse_message p (drop 4 frame) old ≡ (true, pong_message g))

  send_simple-pong :
      (conn : Connection) (old : CastMessage) (s : Machine D W)
      → IsSendable p (pong_message s.globals)
      → size_content p (pong_message s.globals) < 2 ^ 31
      → (frame : Bytes) × IsPong s.globals old frame
        × ((send_simple double os p first conn pong heartbeat s).1
            ≡ record s { world = (os.ssl_write conn.handle frame s.world).1 })
  unfolding send_simple write
  send_simple-pong conn old s h small =
      let quiet : Machine D W = record s { globals = record s.globals { verbose = false } } in
      let (frame, sent, long, parsed) =
        send_message-frame double os p laws first conn (namespace_text heartbeat)
          (message_text pong) old quiet h small in
      (
        frame,
        (long, parsed),
        ap (λ r. record r.1 { globals = record r.1.globals { verbose = s.globals.verbose } }) sent,
      )

  -- A ping is answered with one write, and nothing else is done.
  pub handle_message-ping :
      (conn : Connection) (input : Bytes) (message old : CastMessage) (s : Machine D W)
      → IsPing os m p input message
      → IsSendable p (pong_message s.globals)
      → size_content p (pong_message s.globals) < 2 ^ 31
      → (frame : Bytes) × IsPong s.globals old frame
        × (handle_message double os m p first conn input s
            ≡ (true, record s { world = (os.ssl_write conn.handle frame s.world).1 }))
  handle_message-ping conn input message old s ping h small =
      let (frame, is_pong, sent) = send_simple-pong conn old s h small in
      let answered : handle_message double os m p first conn input s
          ≡ (true, (send_simple double os p first conn pong heartbeat s).1) =
        unfold handle_message dispatch handle_heartbeat namespace_text in
        rw (ping.parsed, ping.some_text, ping.type, ping.in_namespace) refl in
      (frame, is_pong, answered ∙ ap (λ t. (true, t)) sent)
