-- ===== src/Cast/Message/Dropped.antt =====
-- `CastMessage::out_content` of castchannel.h on a destination that is not UTF-8: the `+` between the
-- writes of `destination_id` and `namespace` stands where the chain has `&&`.
use sponsoryeet.Prelude.{
  ◌+◌, ◌<◌, ◌^◌, ◌≡◌, ◌≢◌, refl, ◌∙◌, Bool, true, false, [], ◌∷◌, ◌++◌, length, Bytes, arith,
}
use sponsoryeet.Cast.Protobuf.{Protobuf, IsProtobuf, wire}
use sponsoryeet.Cast.Message.{
  CastMessage, id_destination_id, id_namespace, c_str, size_content, out_content, parse_message,
  handlers,
}
use sponsoryeet.Cast.Message.RoundTrip.{received, handle-written, written-Fits}
use sponsoryeet.Cast.Message.Written.{
  written, text, NoNul, c_str-NoNul, IsText, around, out_content-around, plus-refused,
  size_content-around, size_str-text,
}

-- A message that is in order but for a destination that is not UTF-8.
pub record HasBadDestination (p : Protobuf CastMessage) (m : CastMessage) : Type 0 where
  pub protocol_version : m.protocol_version < 2 ^ 31
  pub payload_type : m.payload_type < 2 ^ 31
  pub source_id : IsText p m.source_id
  pub namespace : IsText p m.namespace
  pub payload_utf8 : IsText p m.payload_utf8
  pub nonempty : m.destination_id ≢ []
  pub no_nul : NoNul m.destination_id
  pub not_utf8 : p.utf8 m.destination_id ≡ false

size_str-refused :
    (p : Protobuf CastMessage) (laws : IsProtobuf p) (d : Bytes)
    → d ≢ []
    → NoNul d
    → length d < p.size_str id_destination_id (c_str d)
size_str-refused p laws [] ne h = absurd (ne refl)
size_str-refused p laws (x ∷ xs) ne h =
    rw (c_str-NoNul (x ∷ xs) h, laws.size_str_lem 3 (x ∷ xs)) (laws.cls_bytes_size 3 (x ∷ xs))

module _ (p : Protobuf CastMessage) (laws : IsProtobuf p) where
  -- A message whose destination is not UTF-8, with all else in order, is still reported as written, in
  -- both orders that `+` leaves open. The destination is missing from the bytes: they are parsed to
  -- the message with an empty one, its two enumerations doubled. `size` counts the destination, so it
  -- says more than the length of the bytes and the destination together.
  pub out_content-drops :
      (first : Bool) (m old : CastMessage) (pout : Bytes)
      → HasBadDestination p m
      → size_content p m < 2 ^ 31
      → (body : Bytes) × (out_content p first m pout ≡ (true, pout ++ body))
        × (length body + length m.destination_id < size_content p m)
        × (parse_message p body old ≡ (true, received (record m { destination_id = [] })))
  unfolding parse_message written
  out_content-drops first m old pout h small =
      let n = text id_namespace m.namespace in
      let blank : CastMessage = record m { destination_id = [] } in
      let middle =
        plus-refused p laws first m.destination_id m.namespace h.no_nul h.nonempty h.not_utf8
          h.namespace in
      let write =
        out_content-around p laws first m n h.protocol_version h.payload_type h.source_id
          h.payload_utf8 middle in
      let extra = p.size_str id_destination_id (c_str m.destination_id) in
      let more = size_str-refused p laws m.destination_id h.nonempty h.no_nul in
      let size =
        size_content-around p laws m n extra h.protocol_version h.payload_type h.source_id
          h.payload_utf8
          (omega (arith, size_str-text p laws id_namespace m.namespace h.namespace.0)) in
      (
        wire p (around m n),
        write pout,
        omega arith,
        laws.parse_lem handlers (around m n) old
              (written-Fits true blank h.protocol_version h.payload_type) (omega arith)
            ∙ handle-written true blank old h.protocol_version h.payload_type,
      )
