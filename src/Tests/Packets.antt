-- ===== src/Tests/Packets.antt =====
-- Splitting and the packets of mdns.h at concrete inputs.
use sponsoryeet.Prelude.{
  ◌≡◌, ◌≢◌, refl, true, false, some, List, [], ◌∷◌, ◌++◌, drop, All, Bytes, codes, arith,
}
use sponsoryeet.Util.{string_split}
use sponsoryeet.Util.Split.{Lacks, join, string_split_total}
use sponsoryeet.Mdns.Packet.{
  query_header, query_footer, query_name, dot, request_packet, has_response, pending, crash, name,
  parse_packet,
}
use sponsoryeet.Mdns.Packet.Bounds.{
  NoWrap, NoWrap-of_small, parse_packet-ne-crash, parse_packet-ne-pending,
}
use sponsoryeet.Mdns.Packet.RoundTrip.{encode, dotted, IsResponse, parse_packet-request}
use sponsoryeet.Mdns.Packet.Divergence.{parse_packet-pending}

-- The labels of `_googlecast._tcp.local.`
abbrev pub labels : List Bytes
labels = codes "_googlecast" ∷ codes "_tcp" ∷ codes "local" ∷ []

abbrev pub answer_header : Bytes
answer_header = 0 ∷ 0 ∷ 132 ∷ 0 ∷ 0 ∷ 1 ∷ 0 ∷ 1 ∷ 0 ∷ 0 ∷ 0 ∷ 0 ∷ []

pub answer_header-IsResponse : IsResponse answer_header
unfolding has_response
answer_header-IsResponse = record { size = refl; answers = refl }

-- What the program asks for.
pub query_bytes :
    request_packet query_name
    ≡ some (
        query_header
        ++ (11 ∷ codes "_googlecast"
            ++ (4 ∷ codes "_tcp" ++ (5 ∷ codes "local" ++ (0 ∷ query_footer)))))
unfolding request_packet string_split
query_bytes = refl

-- A query of another program is no answer.
query_ignored :
    parse_packet 40 false (query_header ++ (encode labels ++ 0 ∷ query_footer)) ≡ name []
unfolding parse_packet has_response
query_ignored = refl

trailing_delimiter : string_split (codes "a..b.") dot ≡ some (codes "a" ∷ [] ∷ codes "b" ∷ [] ∷ [])
unfolding string_split
trailing_delimiter = refl

string_split_total_example :
    (ps : List Bytes) × (string_split query_name dot ≡ some ps)
    × All (Lacks dot) ps
    × (join dot ps ≡ query_name)
string_split_total_example = string_split_total query_name dot

parse_packet-request_example :
    parse_packet 4 false (
      answer_header
      ++ (drop 12 (query_header ++ (encode labels ++ 0 ∷ query_footer)) ++ (192 ∷ 12 ∷ [])))
    ≡ name (dotted labels)
parse_packet-request_example =
    parse_packet-request 4 false answer_header labels (192 ∷ 12 ∷ []) answer_header-IsResponse
      (omega arith) (omega arith) (omega arith) (omega arith) query_bytes

parse_packet-pending_example :
    parse_packet 1000 false (answer_header ++ (encode labels ++ (255 ∷ 0 ∷ 0 ∷ 0 ∷ []))) ≡ pending
parse_packet-pending_example =
    parse_packet-pending 1000 false answer_header labels (0 ∷ 0 ∷ 0 ∷ []) answer_header-IsResponse
      (omega arith) (omega arith) (omega arith)

parse_packet-ne-crash_example :
    parse_packet 100 true (answer_header ++ (200 ∷ 1 ∷ 2 ∷ 3 ∷ [])) ≢ crash
parse_packet-ne-crash_example =
    parse_packet-ne-crash 100 true (answer_header ++ (200 ∷ 1 ∷ 2 ∷ 3 ∷ []))

-- A packet of small bytes.
abbrev small_packet : Bytes
small_packet = answer_header ++ (2 ∷ 7 ∷ 7 ∷ 0 ∷ 9 ∷ 9 ∷ [])

small_packet-NoWrap : NoWrap small_packet
small_packet-NoWrap = NoWrap-of_small small_packet (omega arith)

parse_packet-ne-pending_example : parse_packet 18 false small_packet ≢ pending
parse_packet-ne-pending_example =
    parse_packet-ne-pending 18 false small_packet small_packet-NoWrap (omega arith)
