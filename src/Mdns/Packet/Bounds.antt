-- ===== src/Mdns/Packet/Bounds.antt =====
-- `parsePacket` of mdns.h stays inside the packet, and when its loop ends.
use sponsoryeet.Prelude.{
  ℕ, zero, suc, ◌+◌, ◌<◌, ◌≤◌, ◌≡◌, ◌≢◌, ◌⊎◌, refl, Bool, some, [], inl, inr, Option-cases,
  Bool-cases, ap, ◌∙◌, not, ◌&&◌, ◌==◌, ltb, length, get_elem?, get_elem?-lt, All, subst, ◌∷◌,
  Bytes, arith,
}
use mathlib.Core.Option.{some-injective}
use sponsoryeet.Mdns.Packet.{
  Outcome, running, fault, rejected, stopped, Round, again, leave, read_label, parse_round,
  parse_name, has_response, pending, crash, finish, parse_packet,
}

parse_round-ne-fault :
    (packet : Bytes) (pos : ℕ) (hostname : Bytes) → parse_round packet pos hostname ≢ leave fault
unfolding parse_round read_label
parse_round-ne-fault packet pos hostname = ground (arith, get_elem?-lt packet pos)

Round-cases :
    (r : Round) → ((p : ℕ) × (h : Bytes) × (r ≡ again p h)) ⊎ ((o : Outcome) × (r ≡ leave o))
Round-cases (again p h) = inl (p, h, refl)
Round-cases (leave o) = inr (o, refl)

parse_name-ne-fault :
    (fuel : ℕ) (packet : Bytes) (pos : ℕ) (hostname : Bytes)
    → parse_name fuel packet pos hostname ≢ fault
unfolding parse_name
parse_name-ne-fault zero packet pos hostname = λ e. cc
parse_name-ne-fault (suc fuel) packet pos hostname =
    elim (Round-cases (parse_round packet pos hostname)) [
      | inl (p, h, q) ↦ rw (q, parse_name) (parse_name-ne-fault fuel packet p h)
      | inr (o, q) ↦
          rw (q, parse_name) (λ e. parse_round-ne-fault packet pos hostname (q ∙ ap leave e))
    ]

finish-ne-crash : (answers : Bool) (o : Outcome) → o ≢ fault → finish answers o ≢ crash
unfolding finish
finish-ne-crash answers running n e = cc
finish-ne-crash answers fault n e = n refl
finish-ne-crash answers rejected n e = cc
finish-ne-crash answers (stopped pos hostname) n e = ground arith

pub has_response_lem :
    (packet : Bytes) {x y : ℕ}
    → get_elem? packet 6 ≡ some x
    → get_elem? packet 7 ≡ some y
    → has_response packet ≡ some (not (x == 0 && y == 0))
unfolding has_response
has_response_lem packet p q = ground arith

has_response-some :
    (packet : Bytes) → 8 ≤ length packet → (a : Bool) × (has_response packet ≡ some a)
has_response-some packet h =
    let (x, p) = get_elem?-lt packet 6 (omega arith) in
    let (y, q) = get_elem?-lt packet 7 (omega arith) in
    (not (x == 0 && y == 0), has_response_lem packet p q)

-- Whatever packet arrives, however long the loop runs and in either verbosity, `parsePacket` makes no
-- read behind the packet's end and asks for no substring that starts there.
pub parse_packet-ne-crash :
    (fuel : ℕ) (verbose : Bool) (packet : Bytes) → parse_packet fuel verbose packet ≢ crash
unfolding parse_packet
parse_packet-ne-crash fuel verbose packet = elim (Bool-cases (ltb (length packet) 16)) [
  | inl short ↦ rw short (λ e. cc)
  | inr long ↦
      let (a, q) = has_response-some packet (ground arith) in
      let fine = finish-ne-crash a _ (parse_name-ne-fault fuel packet 12 []) in
      rw (long, q) (ground (arith, fine))
]

-- No label that starts inside the packet ends past byte 255, where `nextPos` would wrap.
abbrev pub NoWrap : Bytes → Type 0
NoWrap packet = (pos size : ℕ) → get_elem? packet pos ≡ some size → pos + 1 + size < 256

get_elem?-All :
    (P : ℕ → Type 0) (xs : Bytes) (i : ℕ) {x : ℕ}
    → All P xs
    → get_elem? xs i ≡ some x
    → (i < length xs) × P x
get_elem?-All P [] i h e = cc
get_elem?-All P (y ∷ ys) zero (h, hs) e = (omega arith, subst P (some-injective _ _ e) h)
get_elem?-All P (y ∷ ys) (suc i) (h, hs) e =
    let (lt, q) = get_elem?-All P ys i hs e in (omega arith, q)

-- Small bytes in a short packet do not wrap.
pub NoWrap-of_small : (packet : Bytes) → All (λ x. length packet + x < 256) packet → NoWrap packet
NoWrap-of_small packet h pos size e =
    let (lt, small) = get_elem?-All (λ x. length packet + x < 256) packet pos h e in omega arith

parse_round-again :
    (packet : Bytes) (pos : ℕ) (hostname : Bytes) {pos' : ℕ} {hostname' : Bytes}
    → NoWrap packet
    → parse_round packet pos hostname ≡ again pos' hostname'
    → (pos < pos') × (pos' < length packet)
unfolding parse_round read_label
parse_round-again packet pos hostname n e = elim (Option-cases (get_elem? packet pos)) [
  | inl q ↦ ground arith
  | inr (size, q) ↦ ground (arith, n pos size q)
]

parse_round-ne-running :
    (packet : Bytes) (pos : ℕ) (hostname : Bytes) → parse_round packet pos hostname ≢ leave running
unfolding parse_round read_label
parse_round-ne-running packet pos hostname = ground arith

parse_name-ne-running :
    (fuel : ℕ) (packet : Bytes) (pos : ℕ) (hostname : Bytes)
    → NoWrap packet
    → length packet < fuel + pos
    → 0 < fuel
    → parse_name fuel packet pos hostname ≢ running
unfolding parse_name
parse_name-ne-running zero packet pos hostname n h k = absurd (omega arith)
parse_name-ne-running (suc fuel) packet pos hostname n h k =
    elim (Round-cases (parse_round packet pos hostname)) [
      | inl (p, g, q) ↦
          let (lt, inside) = parse_round-again packet pos hostname n q in
          rw (q, parse_name) (parse_name-ne-running fuel packet p g n (omega arith) (omega arith))
      | inr (o, q) ↦
          rw (q, parse_name) (λ e. parse_round-ne-running packet pos hostname (q ∙ ap leave e))
    ]

finish-ne-pending : (answers : Bool) (o : Outcome) → o ≢ running → finish answers o ≢ pending
unfolding finish
finish-ne-pending answers running n e = n refl
finish-ne-pending answers fault n e = cc
finish-ne-pending answers rejected n e = cc
finish-ne-pending answers (stopped pos hostname) n e = ground arith

-- Where no label that starts inside the packet ends past byte 255, `parsePacket` ends, within as many
-- rounds as the packet has bytes.
pub parse_packet-ne-pending :
    (fuel : ℕ) (verbose : Bool) (packet : Bytes)
    → NoWrap packet
    → length packet ≤ fuel
    → parse_packet fuel verbose packet ≢ pending
unfolding parse_packet
parse_packet-ne-pending fuel verbose packet n h = elim (Bool-cases (ltb (length packet) 16)) [
  | inl short ↦ rw short (λ e. cc)
  | inr long ↦
      let room : 16 ≤ length packet = ground arith in
      let (a, q) = has_response-some packet (omega arith) in
      let over = parse_name-ne-running fuel packet 12 [] n (omega arith) (omega arith) in
      let fine = finish-ne-pending a _ over in rw (long, q) (ground (arith, fine))
]
