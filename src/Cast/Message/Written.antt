-- ===== src/Cast/Message/Written.antt =====
-- The fields that `CastMessage::out_content` of castchannel.h puts on the wire, and `size_content`.
use sponsoryeet.Prelude.{
  ℕ, ◌+◌, ◌*◌, ◌<◌, ◌^◌, ◌≡◌, ◌≢◌, refl, ◌∙◌, Bool, true, false, List, [], ◌∷◌, ◌++◌, append_assoc,
  append-nil, length, length-append, All, Bytes, arith,
}
use sponsoryeet.Cast.Protobuf.{Protobuf, IsProtobuf, Field, var, cls, wire}
use sponsoryeet.Cast.Message.{
  CastMessage, id_protocol_version, id_source_id, id_destination_id, id_namespace, id_payload_type,
  id_payload_utf8, id_payload_binary, c_str, Writer, and_then, plus, size_content, out_content,
}

abbrev pub NoNul : Bytes → Type 0
NoNul = All (λ x. x ≢ 0)

pub c_str-NoNul : (s : Bytes) → NoNul s → c_str s ≡ s
c_str-NoNul [] h = refl
c_str-NoNul (x ∷ xs) (hx, hxs) = ground (arith, c_str-NoNul xs hxs)

-- A text is left out if it is empty.
abbrev pub text : ℕ → Bytes → List Field
text id [] = []
text id (x ∷ xs) = cls id (x ∷ xs) ∷ []

-- `destination_id` and `namespace` stand in the order in which `+` ran them.
abbrev pub in_order : Bool → List Field → List Field → List Field
in_order true a b = a ++ b
in_order false a b = b ++ a

-- The fields of a message, with these for `destination_id` and `namespace`.
abbrev pub around : CastMessage → List Field → List Field
around m between =
    var id_protocol_version (2 * m.protocol_version)
    ∷ (text id_source_id m.source_id
        ++ (between
            ++ (var id_payload_type (2 * m.payload_type)
                ∷ (text id_payload_utf8 m.payload_utf8
                    ++ text id_payload_binary m.payload_binary))))

unfoldable pub written : Bool → CastMessage → List Field
written first m =
    around m
      (in_order first (text id_destination_id m.destination_id) (text id_namespace m.namespace))

module _ (p : Protobuf CastMessage) where
  open p use {out_var, out_str, out_cls, size_var, size_str, size_cls, utf8, var_bytes, cls_bytes}

  -- A text that `out_str` accepts whole.
  abbrev pub IsText : Bytes → Type 0
  IsText s = NoNul s × (utf8 s ≡ true)

  pub record IsSendable (m : CastMessage) : Type 0 where
    pub protocol_version : m.protocol_version < 2 ^ 31
    pub payload_type : m.payload_type < 2 ^ 31
    pub source_id : IsText m.source_id
    pub destination_id : IsText m.destination_id
    pub namespace : IsText m.namespace
    pub payload_utf8 : IsText m.payload_utf8

  pub wire-append : (fs gs : List Field) → wire p (fs ++ gs) ≡ wire p fs ++ wire p gs
  wire-append [] gs = refl
  wire-append (var id v ∷ fs) gs = rw (wire-append fs gs, append_assoc)
  wire-append (cls id s ∷ fs) gs = rw (wire-append fs gs, append_assoc)

  -- A write succeeds and appends these fields.
  abbrev pub Writes : Writer → List Field → Type 0
  Writes w fs = (pout : Bytes) → w pout ≡ (true, pout ++ wire p fs)

  and_then-Writes :
      (a b : Writer) (fs gs : List Field)
      → Writes a fs
      → Writes b gs
      → Writes (and_then a b) (fs ++ gs)
  and_then-Writes a b fs gs ha hb pout =
      rw (ha pout, hb (pout ++ wire p fs)) (simp (wire-append, append_assoc))

  plus-Writes :
      (first : Bool) (a b : Writer) (fs gs : List Field)
      → Writes a fs
      → Writes b gs
      → Writes (plus first a b) (in_order first fs gs)
  plus-Writes true a b fs gs ha hb pout =
      rw (ha pout, hb (pout ++ wire p fs)) (simp (wire-append, append_assoc))
  plus-Writes false a b fs gs ha hb pout =
      rw (hb pout, ha (pout ++ wire p gs)) (simp (wire-append, append_assoc))

  module _ (laws : IsProtobuf p) where
    out_var-Writes : (id v : ℕ) → v < 2 ^ 31 → Writes (out_var id v true) (var id (2 * v) ∷ [])
    out_var-Writes id v h pout = laws.out_var_lem id v true pout h ∙ simp append-nil

    out_str-Writes : (id : ℕ) (s : Bytes) → IsText s → Writes (out_str id (c_str s)) (text id s)
    out_str-Writes id [] (h, u) pout = laws.out_str_lem id [] pout ∙ simp append-nil
    out_str-Writes id (x ∷ xs) (h, u) pout =
        rw (c_str-NoNul (x ∷ xs) h, laws.out_str_lem id (x ∷ xs) pout, u) (simp append-nil)

    out_cls-Writes : (id : ℕ) (s : Bytes) → Writes (out_cls id s) (text id s)
    out_cls-Writes id [] pout = laws.out_cls_lem id [] pout ∙ simp append-nil
    out_cls-Writes id (x ∷ xs) pout = laws.out_cls_lem id (x ∷ xs) pout ∙ simp append-nil

    -- Whatever `+` writes in the middle, the other fields are written around it.
    pub out_content-around :
        (first : Bool) (m : CastMessage) (between : List Field)
        → m.protocol_version < 2 ^ 31
        → m.payload_type < 2 ^ 31
        → IsText m.source_id
        → IsText m.payload_utf8
        → Writes
            (plus first
              (out_str id_destination_id (c_str m.destination_id))
              (out_str id_namespace (c_str m.namespace)))
            between
        → Writes (out_content p first m) (around m between)
    unfolding out_content
    out_content-around first m between hv ht hs hu middle pout =
        let version : List Field = var id_protocol_version (2 * m.protocol_version) ∷ [] in
        let source = text id_source_id m.source_id in
        let kind : List Field = var id_payload_type (2 * m.payload_type) ∷ [] in
        let payload = text id_payload_utf8 m.payload_utf8 in
        let binary = text id_payload_binary m.payload_binary in
        let head =
          and_then-Writes _ _ version source (out_var-Writes _ _ hv) (out_str-Writes _ _ hs) in
        let left = and_then-Writes _ _ (version ++ source) between head middle in
        let typed =
          and_then-Writes _ _ (version ++ source ++ between) kind left (out_var-Writes _ _ ht) in
        let paid =
          and_then-Writes _ _ (version ++ source ++ between ++ kind) payload typed
            (out_str-Writes _ _ hu) in
        let all =
          and_then-Writes _ _ (version ++ source ++ between ++ kind ++ payload) binary paid
            (out_cls-Writes id_payload_binary m.payload_binary) in
        all pout ∙ simp (wire-append, append_assoc)

    pub out_content-Writes :
        (first : Bool) (m : CastMessage)
        → IsSendable m
        → Writes (out_content p first m) (written first m)
    unfolding written
    out_content-Writes first m h =
        out_content-around first m _ h.protocol_version h.payload_type h.source_id h.payload_utf8 (
          plus-Writes first _ _ (text id_destination_id m.destination_id)
            (text id_namespace m.namespace) (out_str-Writes _ _ h.destination_id)
            (out_str-Writes _ _ h.namespace))

    -- A refused text writes nothing, and `+` forgets that if the other one was written.
    pub plus-refused :
        (first : Bool) (d n : Bytes)
        → NoNul d
        → d ≢ []
        → utf8 d ≡ false
        → IsText n
        → Writes
            (plus first (out_str id_destination_id (c_str d)) (out_str id_namespace (c_str n)))
            (text id_namespace n)
    plus-refused first [] n hd ne u hn pout = absurd (ne refl)
    plus-refused true (x ∷ xs) n hd ne u hn pout =
        rw (c_str-NoNul (x ∷ xs) hd, laws.out_str_lem 3 (x ∷ xs) pout, u)
          (rw (out_str-Writes 4 n hn pout))
    plus-refused false (x ∷ xs) n hd ne u hn pout =
        rw (out_str-Writes 4 n hn pout, c_str-NoNul (x ∷ xs) hd, laws.out_str_lem 3 (x ∷ xs) _, u)

    pub size_str-text :
        (id : ℕ) (s : Bytes) → NoNul s → size_str id (c_str s) ≡ length (wire p (text id s))
    size_str-text id [] h = laws.size_str_lem id []
    size_str-text id (x ∷ xs) h =
        rw (c_str-NoNul (x ∷ xs) h, laws.size_str_lem id (x ∷ xs), append-nil)

    size_cls-text : (id : ℕ) (s : Bytes) → size_cls id s ≡ length (wire p (text id s))
    size_cls-text id [] = laws.size_cls_lem id []
    size_cls-text id (x ∷ xs) = rw (laws.size_cls_lem id (x ∷ xs), append-nil)

    length-in_order :
        (first : Bool) (fs gs : List Field)
        → length (wire p (in_order first fs gs)) ≡ length (wire p fs) + length (wire p gs)
    length-in_order true fs gs = rw wire-append (length-append (wire p fs) (wire p gs))
    length-in_order false fs gs =
        rw wire-append (omega (arith, length-append (wire p gs) (wire p fs)))

    pub size_content-around :
        (m : CastMessage) (between : List Field) (extra : ℕ)
        → m.protocol_version < 2 ^ 31
        → m.payload_type < 2 ^ 31
        → IsText m.source_id
        → IsText m.payload_utf8
        → size_str id_destination_id (c_str m.destination_id)
            + size_str id_namespace (c_str m.namespace)
          ≡ length (wire p between) + extra
        → size_content p m ≡ length (wire p (around m between)) + extra
    unfolding size_content
    size_content-around m between extra hv ht hs hu middle =
        simp (wire-append, length-append)
          (omega (
            arith,
            laws.size_var_lem id_protocol_version m.protocol_version true hv,
            laws.size_var_lem id_payload_type m.payload_type true ht,
            size_str-text id_source_id m.source_id hs.0,
            size_str-text id_payload_utf8 m.payload_utf8 hu.0,
            size_cls-text id_payload_binary m.payload_binary,
          ))

    -- `size_content` counts the bytes that `out_content` writes.
    pub size_content-written :
        (first : Bool) (m : CastMessage)
        → IsSendable m
        → size_content p m ≡ length (wire p (written first m))
    unfolding written
    size_content-written first m h =
        let between =
          in_order first (text id_destination_id m.destination_id)
            (text id_namespace m.namespace) in
        omega (
          arith,
          size_content-around m between 0 h.protocol_version h.payload_type h.source_id
              h.payload_utf8
              (omega (
                arith,
                length-in_order first (text id_destination_id m.destination_id)
                    (text id_namespace m.namespace),
                size_str-text id_destination_id m.destination_id h.destination_id.0,
                size_str-text id_namespace m.namespace h.namespace.0,
              )),
        )
