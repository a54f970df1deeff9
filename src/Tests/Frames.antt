-- ===== src/Tests/Frames.antt =====
-- The frames of loop.h at a concrete connection.
use sponsoryeet.Prelude.{
  List, ℕ, ◌%◌, ◌^◌, ◌≡◌, refl, true, [], ◌∷◌, ℤ, pos, length, length-take, drop, take, Bytes, some,
  codes, arith,
}
use sponsoryeet.State.Bag.{empty}
use sponsoryeet.State.{Os, Matcher, Machine}
use sponsoryeet.Cast.Message.{CastMessage, size_content, out_content, parse_message}
use sponsoryeet.Connection.{write}
use sponsoryeet.Chromecast.{
  big_endian, heartbeat, ping, pong, namespace_text, message_text, outgoing, send_message,
}
use sponsoryeet.Loop.Serve.{ErrorNumbers, again, body, refused, read_frame, take_message}
use sponsoryeet.Loop.Serve.Frames.{Arrives, read_frame-send_message}
use sponsoryeet.Loop.Serve.Records.{ReadsAtMost, read_frame-long}
use sponsoryeet.Loop.Serve.Heartbeat.{take_message-ping}
use sponsoryeet.Extract.{regex_extract}
use sponsoryeet.Loop.Handle.{blank}
use sponsoryeet.Loop.Handle.Heartbeat.{IsPing, IsPong}
use sponsoryeet.Cast.Message.Written.{IsSendable}
use sponsoryeet.Tests.Discovery.{network}
use sponsoryeet.Tests.Interrupted.{nothing_matches}
use sponsoryeet.Tests.Toy.{World, seconds, system, plain, plain-IsProtobuf}
use sponsoryeet.Tests.Messages.{conn, start, machine, hello, ping-IsSendable}

abbrev numbers : ErrorNumbers
numbers = record { etimedout = 110; ebadmsg = 74; econnreset = 104 }

abbrev first_text : List Bytes → Bytes
first_text [] = []
first_text (text ∷ rest) = text

-- A connection that hands on the texts it was sent, each by one read, and at most `most` bytes of it.
abbrev echo : ℕ → Os World
echo most = record system {
  ssl_read = λ handle size w.
      let text = take most (first_text w.sent) in
      ((pos (length text), text), record w { sent = drop 1 w.sent });
}

abbrev receiving : List Bytes → Machine ℤ World
receiving texts = record {
  globals = start;
  world = record { clock = 1001; sent = texts; handles = empty; attributes = 8 };
}

abbrev message : CastMessage
message = outgoing [] (namespace_text heartbeat) (message_text ping)

abbrev frame : Bytes
frame = (out_content plain true message (big_endian (size_content plain message % 2 ^ 32))).1

frame-Arrives :
    Arrives
      (echo 1000)
      conn
      (receiving (take 4 frame ∷ drop 4 frame ∷ [])).world
      (take 4 frame)
      (drop 4 frame)
unfolding out_content size_content outgoing namespace_text message_text
frame-Arrives = record { four = refl; head = refl; rest = refl }

frame_lem :
    out_content plain true message (big_endian (size_content plain message % 2 ^ 32))
    ≡ (true, frame)
unfolding out_content size_content outgoing namespace_text message_text
frame_lem = refl

read_frame-send_message_example :
    (send_message seconds
        (echo 1000)
        plain
        true
        conn
        (namespace_text heartbeat)
        (message_text ping)
        machine
      ≡ write (echo 1000) conn frame machine)
    × ((read_frame (echo 1000) numbers conn (receiving (take 4 frame ∷ drop 4 frame ∷ []))).0
        ≡ (body (drop 4 frame), conn))
    × (parse_message plain (drop 4 frame) hello ≡ (true, message))
unfolding size_content outgoing namespace_text message_text
read_frame-send_message_example =
    read_frame-send_message seconds (echo 1000) plain plain-IsProtobuf numbers true conn conn
      (namespace_text heartbeat) (message_text ping) frame hello machine
      (receiving (take 4 frame ∷ drop 4 frame ∷ [])) ping-IsSendable (omega arith) (omega arith)
      frame_lem refl frame-Arrives

echo-ReadsAtMost : ReadsAtMost 16 (echo 16)
echo-ReadsAtMost handle size w = let few = length-take 16 (first_text w.sent) in omega (arith, few)

-- A message of 256 bytes, where no read returns more than 16.
read_frame-long_example :
    (read_frame (echo 16) numbers conn (receiving ((0 ∷ 0 ∷ 1 ∷ 0 ∷ []) ∷ []))).0.0 ≡ refused 74
read_frame-long_example =
    read_frame-long (echo 16) numbers 16 conn (0 ∷ 0 ∷ 1 ∷ 0 ∷ [])
      (receiving ((0 ∷ 0 ∷ 1 ∷ 0 ∷ []) ∷ [])) echo-ReadsAtMost refl refl refl (omega arith)

-- Every text is of the type `PING`.
abbrev names_ping : Matcher ℤ World
names_ping = record nothing_matches {
  regex_search = λ pattern text. some (text ∷ codes "PING" ∷ []);
}

frame-parsed : parse_message plain (drop 4 frame) blank ≡ (true, message)
unfolding size_content outgoing namespace_text message_text
frame-parsed =
    (read_frame-send_message seconds (echo 1000) plain plain-IsProtobuf numbers true conn conn
      (namespace_text heartbeat) (message_text ping) frame blank machine
      (receiving (take 4 frame ∷ drop 4 frame ∷ [])) ping-IsSendable (omega arith) (omega arith)
      frame_lem refl frame-Arrives).2

frame-IsPing : IsPing (echo 1000) names_ping plain (drop 4 frame) message
unfolding out_content size_content outgoing namespace_text message_text regex_extract
frame-IsPing = record { parsed = frame-parsed; in_namespace = refl; some_text = refl; type = refl }

pong-IsSendable : IsSendable plain (outgoing [] (namespace_text heartbeat) (message_text pong))
unfolding outgoing namespace_text message_text
pong-IsSendable = record {
  protocol_version = omega arith;
  payload_type = omega arith;
  source_id = (omega arith, refl);
  destination_id = (omega arith, refl);
  namespace = (omega arith, refl);
  payload_utf8 = (omega arith, refl);
}

abbrev pinged : Machine ℤ World
pinged = receiving (take 4 frame ∷ drop 4 frame ∷ [])

take_message-ping_example :
    (answer : Bytes) × IsPong seconds
      (echo 1000)
      names_ping
      plain
      plain-IsProtobuf
      true
      start
      hello
      answer
    × (let received = (read_frame (echo 1000) numbers conn pinged).1.world in
        let (now, w) = (echo 1000).time ((echo 1000).ssl_write conn.handle answer received).1 in
        take_message seconds (echo 1000) names_ping plain network numbers true conn pinged
        ≡ (again conn, record { globals = record start { last_ping = now }; world = w }))
unfolding out_content size_content outgoing namespace_text message_text
take_message-ping_example =
    take_message-ping seconds (echo 1000) names_ping plain plain-IsProtobuf network numbers true
      conn (take 4 frame) (drop 4 frame) message hello pinged refl frame-Arrives refl (omega arith)
      (omega arith) frame-IsPing pong-IsSendable (omega arith)
