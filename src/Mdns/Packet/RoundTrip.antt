-- ===== src/Mdns/Packet/RoundTrip.antt =====
-- `parsePacket` of mdns.h against `sendRequest`: a list of labels is written and read back.
use mathlib.Core.Option
use sponsoryeet.Prelude.{
  ℕ, zero, suc, ◌+◌, ◌%◌, ◌<◌, ◌≤◌, ◌≡◌, ◌≢◌, refl, sym, ap, ◌∙◌, Bool, true, false, some, List, [],
  ◌∷◌, ◌++◌, append_assoc, append-nil, le→ltb_false, ltb, length, length-append, length-drop, take,
  drop, get_elem?, get_elem?-append, get_elem?-drop, drop-drop, take-length_append,
  drop-length_append, All, Bytes, arith,
}
use sponsoryeet.Util.{string_split}
use sponsoryeet.Util.Split.{Lacks, join, string_split-join}
use sponsoryeet.Mdns.Packet.{
  query_header, query_footer, dot, put_components, request_packet, stopped, again, leave,
  read_label, parse_round, parse_name, has_response, name, finish, parse_packet,
}

-- The labels of a name in wire format, and the name with a dot behind each label.
abbrev pub encode : List Bytes → Bytes
encode [] = []
encode (l ∷ ls) = length l ∷ (l ++ encode ls)

abbrev pub dotted : List Bytes → Bytes
dotted [] = []
dotted (l ∷ ls) = l ++ dot ∷ dotted ls

abbrev pub NonEmpty : List Bytes → Type 0
NonEmpty = All (λ l. 0 < length l)

-- A round at a label of positive size that ends before byte 256, with a byte behind it, reads it.
pub parse_round-label :
    (packet : Bytes) (pos : ℕ) (hostname l rest : Bytes)
    → drop pos packet ≡ length l ∷ (l ++ rest)
    → 0 < length l
    → 0 < length rest
    → pos + 1 + length l < 256
    → (parse_round packet pos hostname ≡ again (pos + 1 + length l) (hostname ++ l ++ dot ∷ []))
      × (drop (pos + 1 + length l) packet ≡ rest)
unfolding parse_round read_label
parse_round-label packet pos hostname l rest e h r b =
    let behind : drop (pos + 1) packet ≡ l ++ rest =
      sym (drop-drop pos 1 (pos + 1) packet refl) ∙ ap (drop 1) e in
    let size : length packet ≡ pos + 1 + length l + length rest =
      ground (arith, length-drop pos packet, length-append l rest, ap length e) in
    let wrap : (pos + 1 + length l) % 256 ≡ pos + 1 + length l = omega arith in
    let label : take (length l) (drop (pos + 1) packet) ≡ l =
      rw behind (take-length_append l rest) in
    let next : drop (pos + 1 + length l) packet ≡ rest =
      sym (drop-drop (pos + 1) (length l) _ packet refl)
      ∙ ap (drop (length l)) behind
      ∙ drop-length_append l rest in
    (ground (arith, get_elem?-drop packet pos _ _ e), next)

parse_round-end :
    (packet : Bytes) (pos : ℕ) (hostname tail : Bytes)
    → drop pos packet ≡ 0 ∷ tail
    → 2 ≤ length tail
    → parse_round packet pos hostname ≡ leave (stopped (pos + 1) hostname)
unfolding parse_round
parse_round-end packet pos hostname tail e h =
    ground (arith, get_elem?-drop packet pos _ _ e, length-drop pos packet, ap length e)

stopped_path : {p q : ℕ} {h k : Bytes} → p ≡ q → h ≡ k → stopped p h ≡ stopped q k
stopped_path e f = cc

parse_name-encode :
    (fuel : ℕ) (packet : Bytes) (pos : ℕ) (hostname : Bytes) (ls : List Bytes) (tail : Bytes)
    → drop pos packet ≡ encode ls ++ 0 ∷ tail
    → NonEmpty ls
    → pos + length (encode ls) < 256
    → 2 ≤ length tail
    → length ls < fuel
    → parse_name fuel packet pos hostname
      ≡ stopped (pos + length (encode ls) + 1) (hostname ++ dotted ls)
unfolding parse_name
parse_name-encode zero packet pos hostname ls tail e n b t f = absurd (omega arith)
parse_name-encode (suc fuel) packet pos hostname [] tail e n b t f =
    rw (parse_round-end packet pos hostname tail e t, parse_name)
      (stopped_path (omega arith) (sym (append-nil hostname)))
parse_name-encode (suc fuel) packet pos hostname (l ∷ ls) tail e (nl, ns) b t f =
    let rest : Bytes = encode ls ++ 0 ∷ tail in
    let total = length-append l (encode ls) in
    let (again_eq, behind) =
      parse_round-label packet pos hostname l rest
        (e ∙ ap (λ x. length l ∷ x) (append_assoc l (encode ls) (0 ∷ tail))) nl
        (omega (arith, length-append (encode ls) (0 ∷ tail))) (omega arith) in
    rw (again_eq, parse_name)
      (parse_name-encode fuel packet _ (hostname ++ l ++ dot ∷ []) ls tail behind ns (omega arith) t
          (omega arith)
        ∙ stopped_path (omega arith) (simp append_assoc))

get_elem?-header :
    (header rest : Bytes) (i : ℕ)
    → length header ≡ 12
    → i < 12
    → get_elem? (header ++ rest) i ≡ get_elem? header i
get_elem?-header header rest i h k = get_elem?-append header rest i (omega arith)

-- A header of twelve bytes that announces an answer.
pub record IsResponse (header : Bytes) : Type 0 where
  pub size : length header ≡ 12
  pub answers : has_response header ≡ some true

pub has_response-append :
    {header : Bytes} (rest : Bytes) → IsResponse header → has_response (header ++ rest) ≡ some true
unfolding has_response
has_response-append {header} rest r = ground (
  arith,
  r.answers,
  get_elem?-header header rest 6 r.size (omega arith),
  get_elem?-header header rest 7 r.size (omega arith),
)

pub drop-header :
    {header : Bytes} (rest : Bytes) → IsResponse header → drop 12 (header ++ rest) ≡ rest
drop-header {header} rest r =
    ap (λ n. drop n (header ++ rest)) (sym r.size) ∙ drop-length_append header rest

-- In a packet that announces an answer, whose labels are not empty and end before byte 256, and that
-- has three bytes or more behind the final zero, `parsePacket` reads every label, with a dot behind each,
-- in either verbosity, within one round for each label and one for the zero.
pub parse_packet-encode :
    (fuel : ℕ) (verbose : Bool) (header : Bytes) (ls : List Bytes) (tail : Bytes)
    → IsResponse header
    → NonEmpty ls
    → 12 + length (encode ls) < 256
    → 3 ≤ length tail
    → length ls < fuel
    → parse_packet fuel verbose (header ++ (encode ls ++ 0 ∷ tail)) ≡ name (dotted ls)
unfolding parse_packet
parse_packet-encode fuel verbose header ls tail r n b t f =
    let packet : Bytes = header ++ (encode ls ++ 0 ∷ tail) in
    let size = length-append header (encode ls ++ 0 ∷ tail) in
    let behind = length-append (encode ls) (0 ∷ tail) in
    let read = parse_name-encode fuel packet 12 [] ls tail (drop-header _ r) n b (omega arith) f in
    let known = has_response-append (encode ls ++ 0 ∷ tail) r in
    let room : ltb (length packet) 16 ≡ false = le→ltb_false _ _ (omega (arith, r.size)) in
    rw (room, known, read) (unfold finish in ground arith)

-- What `sendRequest` writes.
put_components-encode :
    (ls : List Bytes) (tail packet : Bytes)
    → All (λ l. length l < 256) ls
    → put_components (ls ++ tail ∷ []) packet
      ≡ packet ++ (encode ls ++ ((length tail % 256) ∷ tail))
unfolding put_components
put_components-encode [] tail packet h = refl
put_components-encode (l ∷ ls) tail packet (hl, hls) =
    let small : length l % 256 ≡ length l = omega arith in
    ap (λ n. put_components (ls ++ tail ∷ []) (packet ++ n ∷ l)) small
    ∙ put_components-encode ls tail (packet ++ length l ∷ l) hls
    ∙ simp append_assoc

dotted-join : (ls : List Bytes) → join dot (ls ++ [] ∷ []) ≡ dotted ls
unfolding join
dotted-join [] = refl
dotted-join (l ∷ []) = refl
dotted-join (l ∷ k ∷ ls) = ap (λ x. l ++ dot ∷ x) (dotted-join (k ∷ ls))

append-ne-nil : (ls : List Bytes) (l : Bytes) → ls ++ l ∷ [] ≢ []
append-ne-nil [] l e = cc
append-ne-nil (k ∷ ls) l e = cc

All-snoc :
    (ls : List Bytes) (l : Bytes)
    → All (Lacks dot) ls
    → Lacks dot l
    → All (Lacks dot) (ls ++ l ∷ [])
All-snoc [] l h k = (k, tt)
All-snoc (m ∷ ls) l (hm, hs) k = (hm, All-snoc ls l hs k)

-- The packet that `sendRequest` builds for labels without dots, each shorter than 256 bytes, written
-- with a dot behind each: the header, each label behind its size, a zero, and the footer.
request_packet-dotted :
    (ls : List Bytes)
    → All (Lacks dot) ls
    → All (λ l. length l < 256) ls
    → request_packet (dotted ls) ≡ some (query_header ++ (encode ls ++ 0 ∷ query_footer))
unfolding request_packet
request_packet-dotted ls h k =
    let split : string_split (dotted ls) dot ≡ some (ls ++ [] ∷ []) =
      ap (λ s. string_split s dot) (sym (dotted-join ls))
      ∙ string_split-join (ls ++ [] ∷ []) dot (append-ne-nil ls []) (All-snoc ls [] h tt) in
    rw (split, request_packet)
      (ap (λ x. some (x ++ query_footer)) (put_components-encode ls [] query_header k)
        ∙ simp append_assoc)

encode-small :
    (ls : List Bytes) (n : ℕ) → n + length (encode ls) < 256 → All (λ l. length l < 256) ls
encode-small [] n h = tt
encode-small (l ∷ ls) n h =
    let size = length-append l (encode ls) in (omega arith, encode-small ls n (omega arith))

-- An answer that repeats the question of `sendRequest` under a header of its own, with anything behind
-- it, is read by `parsePacket` as the very name that was asked for. The name is any list of labels
-- that are not empty, hold no dot and end before byte 256 of the packet.
pub parse_packet-request :
    (fuel : ℕ) (verbose : Bool) (header : Bytes) (ls : List Bytes) (extra : Bytes) {request : Bytes}
    → IsResponse header
    → NonEmpty ls
    → All (Lacks dot) ls
    → 12 + length (encode ls) < 256
    → length ls < fuel
    → request_packet (dotted ls) ≡ some request
    → parse_packet fuel verbose (header ++ (drop 12 request ++ extra)) ≡ name (dotted ls)
parse_packet-request fuel verbose header ls extra {request} r n d b f e =
    let written = sym e ∙ request_packet-dotted ls d (encode-small ls 12 b) in
    let question : drop 12 request ++ extra ≡ encode ls ++ 0 ∷ (query_footer ++ extra) =
      ap (λ o. drop 12 (Option.get_or o request) ++ extra) written ∙ simp append_assoc in
    ap (λ x. parse_packet fuel verbose (header ++ x)) question
    ∙ parse_packet-encode fuel verbose header ls (query_footer ++ extra) r n b (omega arith) f
