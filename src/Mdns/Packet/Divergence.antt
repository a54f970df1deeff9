-- ===== src/Mdns/Packet/Divergence.antt =====
-- `parsePacket` of mdns.h on a packet whose label ends past byte 255: `nextPos` is a `uint8_t`.
use sponsoryeet.Prelude.{
  ℕ, zero, suc, ◌+◌, ◌%◌, ◌<◌, ◌≤◌, ◌≡◌, ap, ◌∙◌, Bool, false, refl, List, [], ◌∷◌, ◌++◌,
  append_assoc, ltb, le→ltb_false, length, length-append, length-drop, take, drop, get_elem?-drop,
  Bytes, arith,
}
use sponsoryeet.Mdns.Packet.{
  dot, running, again, read_label, parse_round, parse_name, pending, finish, parse_packet,
}
use sponsoryeet.Mdns.Packet.RoundTrip.{
  encode, NonEmpty, parse_round-label, IsResponse, has_response-append, drop-header,
}

-- A label of size 255 ends where its own size byte stands, modulo 256.
parse_round-loop :
    (packet : Bytes) (pos : ℕ) (hostname tail : Bytes)
    → drop pos packet ≡ 255 ∷ tail
    → pos < 256
    → 2 ≤ length tail
    → (label : Bytes) × (parse_round packet pos hostname ≡ again pos (hostname ++ label))
unfolding parse_round read_label
parse_round-loop packet pos hostname tail e b t =
    let size : length packet ≡ pos + 1 + length tail =
      omega (arith, length-drop pos packet, ap length e) in
    let wrap : (pos + 1 + 255) % 256 ≡ pos = omega arith in
    (
      take 255 (drop (pos + 1) packet) ++ dot ∷ [],
      ground (
        arith,
        get_elem?-drop packet pos _ _ e,
        append_assoc hostname (take 255 (drop (pos + 1) packet)) (dot ∷ []),
      ),
    )

parse_name-loop :
    (fuel : ℕ) (packet : Bytes) (pos : ℕ) (hostname tail : Bytes)
    → drop pos packet ≡ 255 ∷ tail
    → pos < 256
    → 2 ≤ length tail
    → parse_name fuel packet pos hostname ≡ running
unfolding parse_name
parse_name-loop zero packet pos hostname tail e b t = refl
parse_name-loop (suc fuel) packet pos hostname tail e b t =
    let (label, back) = parse_round-loop packet pos hostname tail e b t in
    rw (back, parse_name) (parse_name-loop fuel packet pos (hostname ++ label) tail e b t)

parse_name-running :
    (fuel : ℕ) (packet : Bytes) (pos : ℕ) (hostname : Bytes) (ls : List Bytes) (tail : Bytes)
    → drop pos packet ≡ encode ls ++ 255 ∷ tail
    → NonEmpty ls
    → pos + length (encode ls) < 256
    → 2 ≤ length tail
    → parse_name fuel packet pos hostname ≡ running
unfolding parse_name
parse_name-running zero packet pos hostname ls tail e n b t = refl
parse_name-running (suc fuel) packet pos hostname [] tail e n b t =
    parse_name-loop (suc fuel) packet pos hostname tail e (omega arith) t
parse_name-running (suc fuel) packet pos hostname (l ∷ ls) tail e (nl, ns) b t =
    let rest : Bytes = encode ls ++ 255 ∷ tail in
    let total = length-append l (encode ls) in
    let (again_eq, behind) =
      parse_round-label packet pos hostname l rest
        (e ∙ ap (λ x. length l ∷ x) (append_assoc l (encode ls) (255 ∷ tail))) nl
        (omega (arith, length-append (encode ls) (255 ∷ tail))) (omega arith) in
    rw (again_eq, parse_name)
      (parse_name-running fuel packet _ (hostname ++ l ++ dot ∷ []) ls tail behind ns (omega arith)
        t)

-- In a packet that announces an answer, where behind any labels that end before byte 256 there stands
-- a size byte of 255 with three bytes or more behind it, the loop of `parsePacket` comes back to that
-- byte for ever: no number of rounds ends it, in either verbosity.
pub parse_packet-pending :
    (fuel : ℕ) (verbose : Bool) (header : Bytes) (ls : List Bytes) (tail : Bytes)
    → IsResponse header
    → NonEmpty ls
    → 12 + length (encode ls) < 256
    → 3 ≤ length tail
    → parse_packet fuel verbose (header ++ (encode ls ++ 255 ∷ tail)) ≡ pending
unfolding parse_packet
parse_packet-pending fuel verbose header ls tail r n b t =
    let packet : Bytes = header ++ (encode ls ++ 255 ∷ tail) in
    let size = length-append header (encode ls ++ 255 ∷ tail) in
    let behind = length-append (encode ls) (255 ∷ tail) in
    let read = parse_name-running fuel packet 12 [] ls tail (drop-header _ r) n b (omega arith) in
    let known = has_response-append (encode ls ++ 255 ∷ tail) r in
    let room : ltb (length packet) 16 ≡ false = le→ltb_false _ _ (omega (arith, r.size)) in
    rw (room, known, read) (unfold finish in ground arith)
