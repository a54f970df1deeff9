-- ===== src/Chromecast/Frame.antt =====
-- What `sendMessage` of chromecast.h hands to the connection.
use sponsoryeet.Prelude.{
  ℕ, ◌+◌, ◌*◌, ◌%◌, ◌^◌, ◌<◌, ◌≡◌, sym, ◌∙◌, Bool, true, ◌∷◌, ◌++◌, length, drop, Bytes, arith,
}
use sponsoryeet.Cast.Protobuf.{Protobuf, IsProtobuf}
use sponsoryeet.Cast.Message.{CastMessage, size_content, parse_message}
use sponsoryeet.Cast.Message.Written.{IsSendable}
use sponsoryeet.Cast.Message.RoundTrip.{parse-out_content}
use sponsoryeet.State.{Double, Os, Machine}
use sponsoryeet.Connection.{Connection, write}
use sponsoryeet.Chromecast.{big_endian, outgoing, send_message}

-- `ntohl` of four bytes, as `loop` of loop.h reads a size.
abbrev pub from_big_endian : Bytes → ℕ
from_big_endian (a ∷ b ∷ c ∷ d ∷ rest) = a * 2 ^ 24 + b * 2 ^ 16 + c * 2 ^ 8 + d
from_big_endian _ = 0

pub from_big_endian-big_endian :
    (n : ℕ) (rest : Bytes) → n < 2 ^ 32 → from_big_endian (big_endian n ++ rest) ≡ n
from_big_endian-big_endian n rest h = omega arith

module _ {D W : Type 0} (double : Double D) (os : Os W) (p : Protobuf CastMessage)
    (laws : IsProtobuf p) where
  -- If the message to be sent has only texts that are UTF-8 without zero bytes and takes less than
  -- 2^31 bytes, `sendMessage` makes one write: four bytes in which a reader finds the length of what
  -- follows, and behind them bytes that a reader parses to exactly that message, over any old one.
  -- What the write returns is the result.
  pub send_message-frame :
      (first : Bool) (conn : Connection) (ns text : Bytes) (old : CastMessage) (s : Machine D W)
      → IsSendable p (outgoing s.globals.dest ns text)
      → size_content p (outgoing s.globals.dest ns text) < 2 ^ 31
      → (frame : Bytes) × (send_message double os p first conn ns text s ≡ write os conn frame s)
        × (from_big_endian frame ≡ length (drop 4 frame))
        × (parse_message p (drop 4 frame) old ≡ (true, outgoing s.globals.dest ns text))
  unfolding send_message outgoing
  send_message-frame first conn ns text old s h small =
      let msg = outgoing s.globals.dest ns text in
      let size = size_content p msg in
      let header = big_endian (size % 2 ^ 32) in
      let (body, written, long, parsed) = parse-out_content p laws first msg old header h small in
      let plain : size % 2 ^ 32 ≡ size = omega arith in
      (
        header ++ body,
        rw written,
        from_big_endian-big_endian (size % 2 ^ 32) body (omega arith) ∙ plain ∙ sym long,
        parsed,
      )
