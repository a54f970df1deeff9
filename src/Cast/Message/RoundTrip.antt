-- ===== src/Cast/Message/RoundTrip.antt =====
-- A `CastMessage` of castchannel.h that is written and parsed again.
use sponsoryeet.Prelude.{
  ℕ, ◌*◌, ◌<◌, ◌%◌, ◌^◌, ◌≡◌, refl, sym, ap, ◌∙◌, Bool, true, false, List, [], ◌∷◌, ◌++◌,
  append-nil, append_assoc, length, All, Bytes, arith,
}
use sponsoryeet.Cast.Protobuf.{Protobuf, IsProtobuf, Field, var, Fits, handle, wire}
use sponsoryeet.Cast.Message.{CastMessage, handlers, size_content, out_content, parse_message}
use sponsoryeet.Cast.Message.Written.{
  text, in_order, written, IsSendable, out_content-Writes, size_content-written,
}

-- What a reader gets: the two enumerations come back in ZigZag form.
abbrev pub received : CastMessage → CastMessage
received m = record m {
  protocol_version = 2 * m.protocol_version;
  payload_type = 2 * m.payload_type;
}

abbrev message : ℕ → Bytes → Bytes → Bytes → ℕ → Bytes → Bytes → CastMessage
message v s d n t u b = record {
  protocol_version = v;
  source_id = s;
  destination_id = d;
  namespace = n;
  payload_type = t;
  payload_utf8 = u;
  payload_binary = b;
}

text-Fits :
    (id : ℕ) (s : Bytes) (fs : List Field) → id < 2 ^ 29 → All Fits fs → All Fits (text id s ++ fs)
text-Fits id [] fs h k = k
text-Fits id (x ∷ xs) fs h k = ((h, omega arith), k)

text-Fits_last : (id : ℕ) (s : Bytes) → id < 2 ^ 29 → All Fits (text id s)
text-Fits_last id [] h = tt
text-Fits_last id (x ∷ xs) h = ((h, omega arith), tt)

-- Each text arrives in its own field; one that was left out is empty, as `reset` made it.
handle-source_id :
    (v : ℕ) (s d n : Bytes) (t : ℕ) (u b : Bytes) (fs : List Field)
    → handle handlers (text 2 s ++ fs) (message v [] d n t u b)
      ≡ handle handlers fs (message v s d n t u b)
handle-source_id v [] d n t u b fs = refl
handle-source_id v (x ∷ xs) d n t u b fs = refl

handle-destination_id :
    (v : ℕ) (s d n : Bytes) (t : ℕ) (u b : Bytes) (fs : List Field)
    → handle handlers (text 3 d ++ fs) (message v s [] n t u b)
      ≡ handle handlers fs (message v s d n t u b)
handle-destination_id v s [] n t u b fs = refl
handle-destination_id v s (x ∷ xs) n t u b fs = refl

handle-namespace :
    (v : ℕ) (s d n : Bytes) (t : ℕ) (u b : Bytes) (fs : List Field)
    → handle handlers (text 4 n ++ fs) (message v s d [] t u b)
      ≡ handle handlers fs (message v s d n t u b)
handle-namespace v s d [] t u b fs = refl
handle-namespace v s d (x ∷ xs) t u b fs = refl

handle-payload_utf8 :
    (v : ℕ) (s d n : Bytes) (t : ℕ) (u b : Bytes) (fs : List Field)
    → handle handlers (text 6 u ++ fs) (message v s d n t [] b)
      ≡ handle handlers fs (message v s d n t u b)
handle-payload_utf8 v s d n t [] b fs = refl
handle-payload_utf8 v s d n t (x ∷ xs) b fs = refl

handle-payload_binary :
    (v : ℕ) (s d n : Bytes) (t : ℕ) (u b : Bytes) (fs : List Field)
    → handle handlers (text 7 b ++ fs) (message v s d n t u [])
      ≡ handle handlers fs (message v s d n t u b)
handle-payload_binary v s d n t u [] fs = refl
handle-payload_binary v s d n t u (x ∷ xs) fs = refl

handle-between :
    (first : Bool) (v : ℕ) (s d n : Bytes) (t : ℕ) (u b : Bytes) (fs : List Field)
    → handle handlers (in_order first (text 3 d) (text 4 n) ++ fs) (message v s [] [] t u b)
      ≡ handle handlers fs (message v s d n t u b)
handle-between true v s d n t u b fs =
    ap (λ l. handle handlers l (message v s [] [] t u b)) (append_assoc (text 3 d) (text 4 n) fs)
    ∙ handle-destination_id v s d [] t u b (text 4 n ++ fs)
    ∙ handle-namespace v s d n t u b fs
handle-between false v s d n t u b fs =
    ap (λ l. handle handlers l (message v s [] [] t u b)) (append_assoc (text 4 n) (text 3 d) fs)
    ∙ handle-namespace v s [] n t u b (text 3 d ++ fs)
    ∙ handle-destination_id v s d n t u b fs

handle-last :
    (v : ℕ) (s d n : Bytes) (t : ℕ) (u b : Bytes)
    → handle handlers (text 6 u ++ text 7 b) (message v s d n t [] [])
      ≡ (true, message v s d n t u b)
handle-last v s d n t u b =
    handle-payload_utf8 v s d n t u [] (text 7 b)
    ∙ ap (λ l. handle handlers l (message v s d n t u [])) (sym (append-nil (text 7 b)))
    ∙ handle-payload_binary v s d n t u b []

handle-kind :
    (v : ℕ) (s d n : Bytes) (t : ℕ) (u b : Bytes)
    → t < 2 ^ 32
    → handle handlers (var 5 t ∷ (text 6 u ++ text 7 b)) (message v s d n 0 [] [])
      ≡ (true, message v s d n t u b)
handle-kind v s d n t u b h =
    let wrap : t % 2 ^ 32 ≡ t = omega arith in
    ap (λ k. handle handlers (text 6 u ++ text 7 b) (message v s d n k [] [])) wrap
    ∙ handle-last v s d n t u b

pub handle-written :
    (first : Bool) (m blank : CastMessage)
    → m.protocol_version < 2 ^ 31
    → m.payload_type < 2 ^ 31
    → handle handlers (written first m) (handlers.reset blank) ≡ (true, received m)
unfolding written
handle-written first m blank hv ht =
    let v = 2 * m.protocol_version in
    let s = m.source_id in
    let d = m.destination_id in
    let n = m.namespace in
    let t = 2 * m.payload_type in
    let u = m.payload_utf8 in
    let b = m.payload_binary in
    let wrap : v % 2 ^ 32 ≡ v = omega arith in
    let kind : List Field = var 5 t ∷ (text 6 u ++ text 7 b) in
    let between = in_order first (text 3 d) (text 4 n) in
    ap (λ k. handle handlers (text 2 s ++ (between ++ kind)) (message k [] [] [] 0 [] [])) wrap
    ∙ handle-source_id v s [] [] 0 [] [] (between ++ kind)
    ∙ handle-between first v s d n 0 [] [] kind
    ∙ handle-kind v s d n t u b (omega arith)

in_order-Fits :
    (first : Bool) (d n : Bytes) (fs : List Field)
    → All Fits fs
    → All Fits (in_order first (text 3 d) (text 4 n) ++ fs)
in_order-Fits true d n fs h =
    rw (append_assoc (text 3 d) (text 4 n) fs)
      (text-Fits 3 d _ (omega arith) (text-Fits 4 n fs (omega arith) h))
in_order-Fits false d n fs h =
    rw (append_assoc (text 4 n) (text 3 d) fs)
      (text-Fits 4 n _ (omega arith) (text-Fits 3 d fs (omega arith) h))

pub written-Fits :
    (first : Bool) (m : CastMessage)
    → m.protocol_version < 2 ^ 31
    → m.payload_type < 2 ^ 31
    → All Fits (written first m)
unfolding written
written-Fits first m hv ht =
    let last =
      text-Fits 6 m.payload_utf8 _ (omega arith)
        (text-Fits_last 7 m.payload_binary (omega arith)) in
    let kind : All Fits (var 5 (2 * m.payload_type) ∷ _) = ((omega arith, omega arith), last) in
    (
      (omega arith, omega arith),
      text-Fits 2 m.source_id _ (omega arith)
          (in_order-Fits first m.destination_id m.namespace _ kind),
    )

module _ (p : Protobuf CastMessage) (laws : IsProtobuf p) where
  -- A message whose texts are UTF-8 without zero bytes and whose two enumerations are below 2^31, if
  -- it takes less than 2^31 bytes, is written behind what the buffer holds, in as many bytes as `size`
  -- says. Those bytes are parsed, over any old message, to the same texts, with each enumeration
  -- doubled. It holds in both orders that `+` leaves open.
  pub parse-out_content :
      (first : Bool) (m old : CastMessage) (pout : Bytes)
      → IsSendable p m
      → size_content p m < 2 ^ 31
      → (body : Bytes) × (out_content p first m pout ≡ (true, pout ++ body))
        × (length body ≡ size_content p m)
        × (parse_message p body old ≡ (true, received m))
  unfolding parse_message
  parse-out_content first m old pout h small =
      let size = size_content-written p laws first m h in
      let fits = written-Fits first m h.protocol_version h.payload_type in
      (
        wire p (written first m),
        out_content-Writes p laws first m h pout,
        sym size,
        laws.parse_lem handlers (written first m) old fits (omega arith)
            ∙ handle-written first m old h.protocol_version h.payload_type,
      )
