-- ===== src/Mdns/Query/Starved.antt =====
-- `query` of mdns.h after a short datagram: `packet.resize(size)` leaves a smaller buffer for the next
-- `recvfrom`, and it never grows again.
use sponsoryeet.Prelude.{
  [], ℕ, zero, suc, ◌<◌, ◌≤◌, ◌≡◌, ◌≢◌, subst, Bool, ◌||◌, ◌==◌, ℤ, pos, Bool-cases, inl, inr,
  if◌then◌else◌, ltb, lt→ltb, length, Bytes, arith,
}
use sponsoryeet.State.{Os, Machine, Action, return, call}
use sponsoryeet.Mdns.Packet.{name, parse_packet}
use sponsoryeet.Mdns.Query.{
  Events, Datagram, Net, Search, Next, searching, found, aborted, hung, is_negative, is_nothing,
  quits, judge, receive, query_round, query_loop, go_on,
}

-- A datagram holds no more bytes than the buffer has room for.
abbrev pub FitsBuffer : {W : Type 0} → Net W → Type 0
FitsBuffer {W} net = (fd : ℤ) (room : ℕ) (w : W) → length (net.recv_from fd room w).0.bytes ≤ room

-- The function does not succeed here, and goes on only with a buffer under 16 bytes.
abbrev Starves : Next → Type 0
Starves (searching s) = s.capacity < 16
Starves (found s) = ⊥
Starves (aborted s) = Unit
Starves hung = Unit

parse_packet-short :
    (fuel : ℕ) (verbose : Bool) (packet : Bytes)
    → length packet < 16
    → parse_packet fuel verbose packet ≡ name []
unfolding parse_packet
parse_packet-short fuel verbose packet h = rw (lt→ltb _ _ h)

judge-Starves :
    (fuel : ℕ) (verbose : Bool) (s : Search) (d : Datagram)
    → s.capacity < 16
    → length d.bytes ≤ s.capacity
    → Starves (judge fuel verbose s d)
unfolding judge
judge-Starves fuel verbose s d h k = elim (Bool-cases (is_negative d.size)) [
  | inl e ↦ rw e tt
  | inr e ↦ elim (Bool-cases d.is_inet) [
    | inr f ↦ rw (e, f) h
    | inl f ↦ rw (e, f, parse_packet-short fuel verbose d.bytes (omega arith)) (omega arith)
  ]
]

module _ {D W : Type 0} (os : Os W) (net : Net W) (fits : FitsBuffer net) where
  receive-Starves :
      (fuel : ℕ) (fd : ℤ) (events : Events) (s : Search) (m : Machine D W)
      → s.capacity < 16
      → Starves (receive os net fuel fd events s m).0
  unfolding receive
  receive-Starves fuel fd events s m h =
      let key = (if events.stdin then call net.getchar else return (pos 0)) m in
      let w = key.1.world in
      let d = (net.recv_from fd s.capacity w).0 in
      elim (Bool-cases (quits key.0)) [
        | inl e ↦ rw e tt
        | inr e ↦ elim (Bool-cases events.socket) [
          | inl f ↦ rw (e, f) (judge-Starves fuel m.globals.verbose s d h (fits fd s.capacity w))
          | inr f ↦ rw (e, f) h
        ]
      ]

  query_round-Starves :
      (fuel : ℕ) (fd : ℤ) (s : Search) (m : Machine D W)
      → s.capacity < 16
      → Starves (query_round os net fuel fd s m).0
  unfolding query_round
  query_round-Starves fuel fd s m h =
      let (now, m₁) = call os.time m in
      let (events, m₂) = call (net.select fd) m₁ in
      let idle =
        os.errno m₂.world == net.eintr || is_nothing events.count || is_negative events.count in
      elim (Bool-cases (ltb s.end_time now)) [
        | inl e ↦ rw e h
        | inr e ↦ elim (Bool-cases idle) [
          | inl f ↦ rw (e, f) h
          | inr f ↦ rw (e, f) (receive-Starves fuel fd events s m₂ h)
        ]
      ]

  go_on-Starves :
      (again : Search → Action D W Next) (next : Next) (m : Machine D W)
      → ((s : Search) (m' : Machine D W) → s.capacity < 16 → Starves (again s m').0)
      → Starves next
      → Starves (go_on os net again next m).0
  unfolding go_on
  go_on-Starves again (searching s) m h k =
      let (more, m₁) = call net.running m in
      elim (Bool-cases more) [ inl e ↦ rw e (h s m₁ k) | inr e ↦ rw e tt ]
  go_on-Starves again (found s) m h k = k
  go_on-Starves again (aborted s) m h k = tt
  go_on-Starves again hung m h k = tt

  query_loop-Starves :
      (rounds fuel : ℕ) (fd : ℤ) (s : Search) (m : Machine D W)
      → s.capacity < 16
      → Starves (query_loop os net rounds fuel fd s m).0
  unfolding query_loop
  query_loop-Starves zero fuel fd s m h = h
  query_loop-Starves (suc rounds) fuel fd s m h =
      go_on-Starves (query_loop os net rounds fuel fd) _ _ (query_loop-Starves rounds fuel fd)
        (query_round-Starves fuel fd s m h)

  -- Once a datagram has left a buffer of less than 16 bytes, `query` finds no device any more: however
  -- many rounds follow, and whatever arrives, it does not succeed.
  pub query_loop-ne-found :
      (rounds fuel : ℕ) (fd : ℤ) (s : Search) (m : Machine D W)
      → s.capacity < 16
      → (device : Search) → (query_loop os net rounds fuel fd s m).0 ≢ found device
  query_loop-ne-found rounds fuel fd s m h device e =
      subst Starves e (query_loop-Starves rounds fuel fd s m h)
