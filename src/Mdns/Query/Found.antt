-- ===== src/Mdns/Query/Found.antt =====
-- `query` of mdns.h when an answer to `sendRequest` arrives.
use sponsoryeet.Prelude.{
  ℕ, suc, ◌<◌, ◌≡◌, refl, ap, ◌∙◌, Bool, true, false, some, List, [], ◌∷◌, ◌++◌, ◌==◌, ltb, ℤ, pos,
  length, drop, Bytes, codes, arith,
}
use sponsoryeet.State.{Os, Machine}
use sponsoryeet.Mdns.Packet.{query_name, request_packet, name, parse_packet}
use sponsoryeet.Mdns.Packet.RoundTrip.{IsResponse, parse_packet-request}
use sponsoryeet.Mdns.Query.{
  Datagram, Net, Search, found, is_negative, judge, receive, query_round, query_loop, go_on,
}

-- A datagram arrives in this round: the time is not up, `select` reports the socket and no key, `errno`
-- does not say that it was interrupted, and `recvfrom` fills in the datagram from an IPv4 address.
pub record Arrives {W : Type 0} (os : Os W) (net : Net W) (fd : ℤ) (s : Search) (w : W)
    (d : Datagram) : Type 0 where
  pub in_time : ltb s.end_time (os.time w).0 ≡ false
  pub selected :
      (net.select fd (os.time w).1).0 ≡ record { count = pos 1; stdin = false; socket = true }
  pub uninterrupted : (os.errno (net.select fd (os.time w).1).1 == net.eintr) ≡ false
  pub received : (net.recv_from fd s.capacity (net.select fd (os.time w).1).1).0 ≡ d
  pub size : d.size ≡ pos (length d.bytes)
  pub inet : d.is_inet ≡ true

-- The variables of `query` when it succeeds.
abbrev pub with_device : Search → Datagram → Search
with_device s d = record s { capacity = length d.bytes; address = d.sender }

judge-found :
    (fuel : ℕ) (verbose : Bool) (s : Search) (d : Datagram)
    → is_negative d.size ≡ false
    → d.is_inet ≡ true
    → parse_packet fuel verbose d.bytes ≡ name query_name
    → judge fuel verbose s d ≡ found (with_device s d)
unfolding judge
judge-found fuel verbose s d h i e = rw (h, i, e) refl

module _ {D W : Type 0} (os : Os W) (net : Net W) where
  query_round-found :
      (fuel : ℕ) (fd : ℤ) (s : Search) (m : Machine D W) (d : Datagram)
      → Arrives os net fd s m.world d
      → parse_packet fuel m.globals.verbose d.bytes ≡ name query_name
      → (query_round os net fuel fd s m).0 ≡ found (with_device s d)
  unfolding query_round receive
  query_round-found fuel fd s m d a e =
      let end = judge-found fuel m.globals.verbose s d (ap is_negative a.size) a.inet e in
      rw (a.in_time, a.selected, a.uninterrupted, a.received) end

  query_loop-first :
      (rounds fuel : ℕ) (fd : ℤ) (s device : Search) (m : Machine D W)
      → (query_round os net fuel fd s m).0 ≡ found device
      → (query_loop os net (suc rounds) fuel fd s m).0 ≡ found device
  unfolding query_loop go_on
  query_loop-first rounds fuel fd s device m e = rw e refl

  -- When a datagram arrives that repeats the question of `sendRequest` behind the header of a response,
  -- with anything after it, `query` succeeds in this round and stores the sender's address.
  pub query_loop-found :
      (rounds fuel : ℕ) (fd : ℤ) (s : Search) (m : Machine D W) (d : Datagram)
      (header extra : Bytes) {request : Bytes}
      → Arrives os net fd s m.world d
      → request_packet query_name ≡ some request
      → IsResponse header
      → d.bytes ≡ header ++ (drop 12 request ++ extra)
      → 3 < fuel
      → (query_loop os net (suc rounds) fuel fd s m).0 ≡ found (with_device s d)
  query_loop-found rounds fuel fd s m d header extra a q r e f =
      let labels : List Bytes = codes "_googlecast" ∷ codes "_tcp" ∷ codes "local" ∷ [] in
      let read =
        parse_packet-request fuel m.globals.verbose header labels extra r (omega arith)
          (omega arith) (omega arith) f q in
      query_loop-first rounds fuel fd s (with_device s d) m
        (query_round-found fuel fd s m d a (ap (parse_packet fuel m.globals.verbose) e ∙ read))
