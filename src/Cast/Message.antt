-- ===== src/Cast/Message.antt =====
-- `class CastMessage` of castchannel.h: its fields, what it writes and what it takes from the wire.
-- The base class is a parameter, the operations of `Protobuf`.
pub mod Written
pub mod RoundTrip
pub mod Dropped
use sponsoryeet.Prelude.{
  ℕ, ◌+◌, ◌%◌, ◌^◌, Bool, true, false, ◌||◌, List, [], ◌∷◌, if◌then◌else◌, ◌==◌, Bytes,
}
use sponsoryeet.Cast.Protobuf.{Protobuf, Handlers}

pub record CastMessage : Type 0 where
  pub protocol_version : ℕ
  pub source_id : Bytes
  pub destination_id : Bytes
  pub namespace : Bytes
  pub payload_type : ℕ
  pub payload_utf8 : Bytes
  pub payload_binary : Bytes

abbrev pub id_protocol_version : ℕ
id_protocol_version = 1

abbrev pub id_source_id : ℕ
id_source_id = 2

abbrev pub id_destination_id : ℕ
id_destination_id = 3

abbrev pub id_namespace : ℕ
id_namespace = 4

abbrev pub id_payload_type : ℕ
id_payload_type = 5

abbrev pub id_payload_utf8 : ℕ
id_payload_utf8 = 6

abbrev pub id_payload_binary : ℕ
id_payload_binary = 7

-- `CASTV2_1_0`, `STRING` and `BINARY`.
abbrev pub cast_v2_1_0 : ℕ
cast_v2_1_0 = 0

abbrev pub payload_string : ℕ
payload_string = 0

abbrev pub payload_bytes : ℕ
payload_bytes = 1

-- `reset` clears every field, so it does not depend on the message.
abbrev pub reset : CastMessage → CastMessage
reset m = record {
  protocol_version = cast_v2_1_0;
  source_id = [];
  destination_id = [];
  namespace = [];
  payload_type = payload_string;
  payload_utf8 = [];
  payload_binary = [];
}

-- `c_str()` shows a reader the bytes up to the first zero.
abbrev pub c_str : Bytes → Bytes
c_str [] = []
c_str (x ∷ xs) = if x == 0 then [] else x ∷ c_str xs

abbrev pub on_var : ℕ → ℕ → CastMessage → Bool × CastMessage
on_var field_number val m =
    if field_number == id_protocol_version
    then (true, record m { protocol_version = val % 2 ^ 32 })
    else if field_number == id_payload_type
    then (true, record m { payload_type = val % 2 ^ 32 })
    else (false, m)

abbrev pub on_cls : ℕ → Bytes → CastMessage → Bool × CastMessage
on_cls field_number text m =
    if field_number == id_source_id
    then (true, record m { source_id = text })
    else if field_number == id_destination_id
    then (true, record m { destination_id = text })
    else if field_number == id_namespace
    then (true, record m { namespace = text })
    else if field_number == id_payload_utf8
    then (true, record m { payload_utf8 = text })
    else if field_number == id_payload_binary
    then (true, record m { payload_binary = text })
    else (false, m)

abbrev pub on_fix32 : ℕ → ℕ → CastMessage → Bool × CastMessage
on_fix32 field_number val m = (false, m)

abbrev pub on_fix64 : ℕ → ℕ → CastMessage → Bool × CastMessage
on_fix64 field_number val m = (true, m)

abbrev pub handlers : Handlers CastMessage
handlers = record {
  reset = reset;
  on_var = on_var;
  on_cls = on_cls;
  on_fix32 = on_fix32;
  on_fix64 = on_fix64;
}

-- A call of an `out_` function: its result, and the bytes of `*pout` behind it.
abbrev pub Writer : Type 0
Writer = Bytes → Bool × Bytes

-- `a && b`: `b` runs only if `a` succeeds.
abbrev pub and_then : Writer → Writer → Writer
and_then a b pout = let (done, pout') = a pout in if done then b pout' else (false, pout')

-- `a + b` as a condition: both run, in an order that the language leaves open, and it is true if
-- either is. The flag is whether `a` runs first.
abbrev pub plus : Bool → Writer → Writer → Writer
plus true a b pout = let (x, pout') = a pout in let (y, pout'') = b pout' in (x || y, pout'')
plus false a b pout = let (y, pout') = b pout in let (x, pout'') = a pout' in (x || y, pout'')

module _ (p : Protobuf CastMessage) where
  open p use {out_var, out_str, out_cls, size_var, size_str, size_cls, parse}

  unfoldable pub size_content : CastMessage → ℕ
  size_content m =
      size_var id_protocol_version m.protocol_version true
      + size_str id_source_id (c_str m.source_id)
      + size_str id_destination_id (c_str m.destination_id)
      + size_str id_namespace (c_str m.namespace)
      + size_var id_payload_type m.payload_type true
      + size_str id_payload_utf8 (c_str m.payload_utf8)
      + size_cls id_payload_binary m.payload_binary

  -- The chain of `&&`, where `+` binds the two writes in its middle. The flag is the order of `plus`.
  unfoldable pub out_content : Bool → CastMessage → Writer
  out_content first m =
      and_then
        (and_then
          (and_then
            (and_then
              (and_then (out_var id_protocol_version m.protocol_version true)
                (out_str id_source_id (c_str m.source_id)))
              (plus first (out_str id_destination_id (c_str m.destination_id))
                (out_str id_namespace (c_str m.namespace))))
            (out_var id_payload_type m.payload_type true))
          (out_str id_payload_utf8 (c_str m.payload_utf8)))
        (out_cls id_payload_binary m.payload_binary)

  pub parse_message : Bytes → CastMessage → Bool × CastMessage
  parse_message = parse handlers
