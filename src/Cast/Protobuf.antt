-- ===== src/Cast/Protobuf.antt =====
-- The encoder and decoder that castchannel.h derives from (the copy of eclib in ec_protobuf.h), as an
-- interface: the calls that `CastMessage` makes or receives, and what the protocol buffer format
-- documents of them.
use sponsoryeet.Prelude.{
  ℕ, ◌*◌, ◌<◌, ◌^◌, ◌≡◌, Bool, true, false, List, [], ◌∷◌, ◌++◌, if◌then◌else◌, length, is_empty,
  All, Bytes,
}

-- The virtual functions that `parse` calls.
pub record Handlers (S : Type 0) : Type 0 where
  pub reset : S → S
  pub on_var : ℕ → ℕ → S → Bool × S
  pub on_cls : ℕ → Bytes → S → Bool × S
  pub on_fix32 : ℕ → ℕ → S → Bool × S
  pub on_fix64 : ℕ → ℕ → S → Bool × S

-- An `out_` function has the field's number, its value and the bytes written so far, and returns
-- whether it succeeded, with the bytes.
pub record Protobuf (S : Type 0) : Type 0 where
  pub out_var : ℕ → ℕ → Bool → Bytes → Bool × Bytes
  pub out_str : ℕ → Bytes → Bytes → Bool × Bytes
  pub out_cls : ℕ → Bytes → Bytes → Bool × Bytes
  pub size_var : ℕ → ℕ → Bool → ℕ
  pub size_str : ℕ → Bytes → ℕ
  pub size_cls : ℕ → Bytes → ℕ
  pub parse : Handlers S → Bytes → S → Bool × S
  -- `isutf8`
  pub utf8 : Bytes → Bool
  -- The bytes of one field: a varint, and a text behind its length.
  pub var_bytes : ℕ → ℕ → Bytes
  pub cls_bytes : ℕ → Bytes → Bytes

-- A field on the wire.
pub data Field : Type 0 where
  var : ℕ → ℕ → Field
  cls : ℕ → Bytes → Field

-- ZigZag maps a number that is not negative to its double.
abbrev pub zigzag : Bool → ℕ → ℕ
zigzag flag v = if flag then 2 * v else v

-- Field numbers and varints of 32 bits; a text's length is an `int`.
abbrev pub Fits : Field → Type 0
Fits (var id v) = (id < 2 ^ 29) × (v < 2 ^ 32)
Fits (cls id text) = (id < 2 ^ 29) × (0 < length text)

module _ {S : Type 0} where
  -- The handlers are called for the fields in turn, until one refuses.
  abbrev pub handle : Handlers S → List Field → S → Bool × S
  handle h [] s = (true, s)
  handle h (var id v ∷ fs) s =
      let (fine, s') = h.on_var id v s in
      let rest = handle h fs s' in if fine then rest else (false, s')
  handle h (cls id text ∷ fs) s =
      let (fine, s') = h.on_cls id text s in
      let rest = handle h fs s' in if fine then rest else (false, s')

  module _ (p : Protobuf S) where
    open p use {
      out_var, out_str, out_cls, size_var, size_str, size_cls, parse, utf8, var_bytes, cls_bytes,
    }

    abbrev pub wire : List Field → Bytes
    wire [] = []
    wire (var id v ∷ fs) = var_bytes id v ++ wire fs
    wire (cls id text ∷ fs) = cls_bytes id text ++ wire fs

    pub record IsProtobuf : Type 0 where
      -- A varint field is appended, its value in ZigZag form if that is asked for.
      pub out_var_lem :
          (id v : ℕ) (flag : Bool) (pout : Bytes)
          → v < 2 ^ 31
          → out_var id v flag pout ≡ (true, pout ++ var_bytes id (zigzag flag v))
      -- An empty text is left out, a text that is not UTF-8 is refused, any other is appended.
      pub out_str_lem :
          (id : ℕ) (text pout : Bytes)
          → out_str id text pout ≡ (
              if is_empty text
              then (true, pout)
              else if utf8 text
              then (true, pout ++ cls_bytes id text)
              else (false, pout))
      pub out_cls_lem :
          (id : ℕ) (text pout : Bytes)
          → out_cls id text pout
            ≡ (true, (if is_empty text then pout else pout ++ cls_bytes id text))
      -- A size is the number of bytes that the field takes, were it written.
      pub size_var_lem :
          (id v : ℕ) (flag : Bool)
          → v < 2 ^ 31
          → size_var id v flag ≡ length (var_bytes id (zigzag flag v))
      pub size_str_lem :
          (id : ℕ) (text : Bytes)
          → size_str id text ≡ (if is_empty text then 0 else length (cls_bytes id text))
      pub size_cls_lem :
          (id : ℕ) (text : Bytes)
          → size_cls id text ≡ (if is_empty text then 0 else length (cls_bytes id text))
      -- The bytes of a text field hold the text.
      pub cls_bytes_size : (id : ℕ) (text : Bytes) → length text < length (cls_bytes id text)
      -- `parse` resets, and hands each field over in the order of the bytes.
      pub parse_lem :
          (h : Handlers S) (fs : List Field) (s : S)
          → All Fits fs
          → length (wire fs) < 2 ^ 31
          → parse h (wire fs) s ≡ handle h fs (h.reset s)
