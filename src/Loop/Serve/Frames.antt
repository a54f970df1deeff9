-- ===== src/Loop/Serve/Frames.antt =====
-- The frames that `loop` of loop.h reads, against those that `sendMessage` of chromecast.h writes.
use sponsoryeet.Prelude.{
  ◌%◌, ◌^◌, ◌<◌, ◌≤◌, ◌≡◌, refl, sym, ap, ◌∙◌, subst, Bool, true, false, ◌==◌, ltb, [], ◌++◌,
  length, take, drop, take-length_append, Bytes, pos, if◌then◌else◌, arith,
}
use sponsoryeet.Cast.Protobuf.{Protobuf, IsProtobuf}
use sponsoryeet.Cast.Message.{CastMessage, out_content, size_content, parse_message}
use sponsoryeet.Cast.Message.Written.{IsSendable}
use sponsoryeet.Cast.Message.RoundTrip.{parse-out_content}
use sponsoryeet.State.{Double, Os, Machine, return}
use sponsoryeet.Connection.{Connection, read, write, resize}
use sponsoryeet.Chromecast.{big_endian, outgoing, send_message}
use sponsoryeet.Chromecast.Frame.{from_big_endian, from_big_endian-big_endian}
use sponsoryeet.Loop.Serve.{ErrorNumbers, body, refused, message_limit, read_frame, read_body}

-- The next read of `size` bytes delivers this text.
abbrev pub Delivers : {W : Type 0} → Os W → Connection → W → Bytes → Type 0
Delivers os conn w text = (os.ssl_read conn.handle (length text) w).0 ≡ (pos (length text), text)

-- Two reads deliver a frame: its size of four bytes, and what follows.
pub record Arrives {W : Type 0} (os : Os W) (conn : Connection) (w : W) (size text : Bytes)
    : Type 0 where
  pub four : length size ≡ 4
  pub head : Delivers os conn w size
  pub rest : Delivers os conn (os.ssl_read conn.handle 4 w).1 text

resize-length : (text : Bytes) → resize (length text) text ≡ text
resize-length text = take-length_append text _

module _ {D W : Type 0} (os : Os W) where
  read-delivered :
      (conn : Connection) (text : Bytes) (s : Machine D W)
      → 0 < length text
      → Delivers os conn s.world text
      → (read os (length text) conn s).0 ≡ (text, conn)
  unfolding read
  read-delivered conn text s h d =
      let full : (length text == 0) ≡ false = ground arith in
      rw (d, ap (λ r. r.1) d, resize-length text, full) refl

module _ {D W : Type 0} (os : Os W) (numbers : ErrorNumbers) where
  read_body-delivered :
      (conn : Connection) (text : Bytes) (s : Machine D W)
      → 0 < length text
      → length text ≤ message_limit
      → Delivers os conn s.world text
      → (read_body os numbers (length text) conn s).0 ≡ (body text, conn)
  unfolding read_body
  read_body-delivered conn text s h k d =
      let small : ltb message_limit (length text) ≡ false = ground arith in
      let whole : ltb (length text) (length text) ≡ false = ground arith in
      rw (small, read-delivered os conn text s h d, whole) refl

  -- Behind four bytes that the first read delivers, the body is read as they announce.
  pub read_frame-sized :
      (conn : Connection) (size : Bytes) (s : Machine D W)
      → conn.eof ≡ false
      → length size ≡ 4
      → Delivers os conn s.world size
      → (read_frame os numbers conn s).0
        ≡ (read_body os numbers (from_big_endian size) conn (read os 4 conn s).1).0
  unfolding read_frame read
  read_frame-sized conn size s q l d =
      let sized : (read os 4 conn s).0 ≡ (size, conn) =
        subst (λ n. (read os n conn s).0 ≡ (size, conn)) l
          (read-delivered os conn size s (omega (arith, l)) d) in
      let four : (length size == 4) ≡ true = ground (arith, l) in
      let after = (read os 4 conn s).1 in
      let rest = read_body os numbers (from_big_endian size) conn in
      rw (sized, four)
        (ap
          (λ closed. ((if closed then return (refused numbers.econnreset, conn) else rest) after).0)
          q)

  -- A frame of at most 64 KB whose size announces its length, delivered by two reads, is read as its
  -- body, and leaves the connection as it was.
  pub read_frame-delivered :
      (conn : Connection) (size text : Bytes) (s : Machine D W)
      → conn.eof ≡ false
      → Arrives os conn s.world size text
      → from_big_endian size ≡ length text
      → 0 < length text
      → length text ≤ message_limit
      → (read_frame os numbers conn s).0 ≡ (body text, conn)
  unfolding read
  read_frame-delivered conn size text s q a e h k =
      let after = (read os 4 conn s).1 in
      read_frame-sized conn size s q a.four a.head
      ∙ ap (λ n. (read_body os numbers n conn after).0) e
      ∙ read_body-delivered conn text after h k a.rest

module _ {D W : Type 0} (double : Double D) (os : Os W) (p : Protobuf CastMessage)
    (laws : IsProtobuf p) (numbers : ErrorNumbers) where
  -- What `sendMessage` puts on the wire is what the loop at the other end reads. Let the message have
  -- only texts that are UTF-8 without zero bytes, and a size from 1 byte to 64 KB, and let `frame` be
  -- what `serialize` makes of it behind the size. Then `sendMessage` makes one write, of `frame`; and an
  -- open connection to which two reads deliver it hands on a body that parses to exactly the message,
  -- over any old one, and stays as it was.
  pub read_frame-send_message :
      (first : Bool) (conn other : Connection) (ns text frame : Bytes) (old : CastMessage)
      (s r : Machine D W)
      → let msg = outgoing s.globals.dest ns text in
        IsSendable p msg
        → 0 < size_content p msg
        → size_content p msg ≤ message_limit
        → out_content p first msg (big_endian (size_content p msg % 2 ^ 32)) ≡ (true, frame)
        → other.eof ≡ false
        → Arrives os other r.world (take 4 frame) (drop 4 frame)
        → (send_message double os p first conn ns text s ≡ write os conn frame s)
          × ((read_frame os numbers other r).0 ≡ (body (drop 4 frame), other))
          × (parse_message p (drop 4 frame) old ≡ (true, msg))
  unfolding send_message outgoing
  read_frame-send_message first conn other ns text frame old s r h low high e q a =
      let msg = outgoing s.globals.dest ns text in
      let size = size_content p msg in
      let header = big_endian (size % 2 ^ 32) in
      let (rest, written, long, parsed) =
        parse-out_content p laws first msg old header h (omega arith) in
      let whole : frame ≡ header ++ rest = ap (λ o. o.1) (sym e ∙ written) in
      let tail : drop 4 frame ≡ rest = ap (drop 4) whole in
      let announced : from_big_endian (take 4 frame) ≡ length (drop 4 frame) =
        ap (λ x. from_big_endian (take 4 x)) whole
        ∙ from_big_endian-big_endian (size % 2 ^ 32) [] (omega arith)
        ∙ (omega arith)
        ∙ sym (ap length tail ∙ long) in
      let full : length (drop 4 frame) ≡ size = ap length tail ∙ long in
      (
        rw e,
        read_frame-delivered os numbers other (take 4 frame) (drop 4 frame) r q a announced
            (omega (arith, full)) (omega (arith, full)),
        ap (λ x. parse_message p x old) tail ∙ parsed,
      )
