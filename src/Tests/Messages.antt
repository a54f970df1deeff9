-- ===== src/Tests/Messages.antt =====
-- Messages of castchannel.h and chromecast.h at concrete inputs.
use sponsoryeet.Prelude.{
  ◌+◌, ◌<◌, ◌≡◌, refl, true, false, [], ◌∷◌, ◌++◌, length, drop, ℤ, pos, negsuc, Bytes, codes,
  arith,
}
use sponsoryeet.Cast.Message.{CastMessage, size_content, out_content, parse_message}
use sponsoryeet.Cast.Message.Written.{IsSendable}
use sponsoryeet.Cast.Message.RoundTrip.{received, parse-out_content}
use sponsoryeet.Cast.Message.Dropped.{HasBadDestination, out_content-drops}
use sponsoryeet.State.Bag.{empty}
use sponsoryeet.State.{Globals, Machine}
use sponsoryeet.Connection.{Connection, write}
use sponsoryeet.Chromecast.{
  decimal, heartbeat, ping, namespace_text, message_text, outgoing, send_message,
}
use sponsoryeet.Chromecast.Frame.{from_big_endian, send_message-frame}
use sponsoryeet.Tests.Toy.{World, seconds, system, plain, plain-IsProtobuf}

abbrev pub conn : Connection
conn = record { eof = false; method = 1; ctx = 2; handle = 3; fd = pos 4 }

abbrev pub start : Globals ℤ
start = record {
  running = true;
  verbose = true;
  adblock = false;
  youtube = true;
  current_segments =
      record { begin = pos 10; end = pos 20 } ∷ record { begin = pos 5; end = pos 15 } ∷ [];
  next_segment_start = negsuc 0;
  current_video = codes "abc";
  current_position = pos 11;
  current_duration = pos 300;
  last_position_fetched = pos 1000;
  currently_playing = true;
  last_seek = 0;
  last_ping = 990;
  current_status = codes "PLAYING";
  categories = [];
  dest = [];
  media_session = codes "7";
  request_id = 41;
}

abbrev pub machine : Machine ℤ World
machine = record {
  globals = start;
  world = record { clock = 1001; sent = []; handles = empty; attributes = 8 };
}

abbrev pub hello : CastMessage
hello = record {
  protocol_version = 0;
  source_id = codes "sender-0";
  destination_id = codes "receiver-0";
  namespace = codes "ns";
  payload_type = 1;
  payload_utf8 = codes "hi";
  payload_binary = 0 ∷ [];
}

hello-IsSendable : IsSendable plain hello
hello-IsSendable = record {
  protocol_version = omega arith;
  payload_type = omega arith;
  source_id = (omega arith, refl);
  destination_id = (omega arith, refl);
  namespace = (omega arith, refl);
  payload_utf8 = (omega arith, refl);
}

parse-out_content_example :
    (body : Bytes) × (out_content plain false hello (9 ∷ []) ≡ (true, (9 ∷ []) ++ body))
    × (length body ≡ size_content plain hello)
    × (parse_message plain body hello ≡ (true, received hello))
unfolding size_content
parse-out_content_example =
    parse-out_content plain plain-IsProtobuf false hello hello (9 ∷ []) hello-IsSendable
      (omega arith)

-- The reader sees the payload type 2 where the writer has `BINARY`, which is 1.
payload_type_doubled : (received hello).payload_type ≡ 2
payload_type_doubled = refl

-- A session id with a two-byte character, which `isutf8` refuses.
abbrev accented : CastMessage
accented = record hello { destination_id = 195 ∷ 169 ∷ [] }

accented-HasBadDestination : HasBadDestination plain accented
accented-HasBadDestination = record {
  protocol_version = omega arith;
  payload_type = omega arith;
  source_id = (omega arith, refl);
  namespace = (omega arith, refl);
  payload_utf8 = (omega arith, refl);
  nonempty = λ e. cc;
  no_nul = omega arith;
  not_utf8 = refl;
}

out_content-drops_example :
    (body : Bytes) × (out_content plain true accented [] ≡ (true, [] ++ body))
    × (length body + length accented.destination_id < size_content plain accented)
    × (parse_message plain body hello ≡ (true, received (record accented { destination_id = [] })))
unfolding size_content
out_content-drops_example =
    out_content-drops plain plain-IsProtobuf true accented hello [] accented-HasBadDestination
      (omega arith)

pub ping-IsSendable : IsSendable plain (outgoing [] (namespace_text heartbeat) (message_text ping))
unfolding outgoing namespace_text message_text
ping-IsSendable = record {
  protocol_version = omega arith;
  payload_type = omega arith;
  source_id = (omega arith, refl);
  destination_id = (omega arith, refl);
  namespace = (omega arith, refl);
  payload_utf8 = (omega arith, refl);
}

send_message-frame_example :
    (frame : Bytes) × (send_message seconds system plain true conn
        (namespace_text heartbeat)
        (message_text ping)
        machine
      ≡ write system conn frame machine)
    × (from_big_endian frame ≡ length (drop 4 frame))
    × (parse_message plain (drop 4 frame) hello
        ≡ (true, outgoing [] (namespace_text heartbeat) (message_text ping)))
unfolding size_content outgoing namespace_text message_text
send_message-frame_example =
    send_message-frame seconds system plain plain-IsProtobuf true conn (namespace_text heartbeat)
      (message_text ping) hello machine ping-IsSendable (omega arith)

digits_of_number : decimal 1204 ≡ codes "1204"
unfolding decimal
digits_of_number = refl
