-- ===== src/Mdns/Packet.antt =====
-- The packets of mdns.h: what `sendRequest` builds and how `parsePacket` reads a name. A byte is a
-- number below 256, `uint8_t` arithmetic wraps at 256, and a read out of range is a `fault`.
pub mod Bounds
pub mod Divergence
pub mod RoundTrip
use sponsoryeet.Prelude.{
  ℕ, zero, suc, ◌+◌, ◌%◌, Bool, true, false, ◌&&◌, not, Option, none, some, List, [], ◌∷◌, ◌++◌,
  if◌then◌else◌, ltb, leb, ◌==◌, length, take, drop, get_elem?, Bytes, codes,
}
use sponsoryeet.Util.{string_split}

abbrev pub query_header : Bytes
query_header = 0 ∷ 0 ∷ 0 ∷ 0 ∷ 0 ∷ 1 ∷ 0 ∷ 0 ∷ 0 ∷ 0 ∷ 0 ∷ 0 ∷ []

abbrev pub query_footer : Bytes
query_footer = 0 ∷ 12 ∷ 0 ∷ 1 ∷ []

abbrev pub query_name : Bytes
query_name = codes "_googlecast._tcp.local."

abbrev pub dot : ℕ
dot = b'.'

-- The loop of `sendRequest`: `uint8_t(component.size())`, then the component.
pub put_components : List Bytes → Bytes → Bytes
put_components [] packet = packet
put_components (component ∷ rest) packet =
    put_components rest (packet ++ ((length component % 256) ∷ component))

-- The packet of `sendRequest` for a name; `none` would be a split that does not end.
unfoldable pub request_packet : Bytes → Option Bytes
unfolding put_components
request_packet name = elim (string_split name dot) [
  | none ↦ none
  | some components ↦ some (put_components components query_header ++ query_footer)
]

-- `data.substr(pos, length)`, which throws if `pos` is past the end.
abbrev pub substr? : Bytes → ℕ → ℕ → Option Bytes
substr? s pos count = if ltb (length s) pos then none else some (take count (drop pos s))

-- How the loop of `parsePacket` ends. `running` is a loop that is not over when its fuel is.
pub data Outcome : Type 0 where
  running fault rejected : Outcome
  stopped : ℕ → Bytes → Outcome

pub data Round : Type 0 where
  again : ℕ → Bytes → Round
  leave : Outcome → Round

-- The label behind its length byte; `pos` is already past that byte.
pub read_label : Bytes → ℕ → ℕ → Bytes → Round
read_label packet pos size hostname =
    let next_pos = (pos + size) % 256 in
    if leb (length packet) next_pos then leave rejected else elim (substr? packet pos size) [
      | none ↦ leave fault
      | some label ↦ again next_pos (hostname ++ label ++ dot ∷ [])
    ]

-- One round of `while (pos + 2 < data.size())`.
pub parse_round : Bytes → ℕ → Bytes → Round
parse_round packet pos hostname =
    if ltb (pos + 2) (length packet)
    then elim (get_elem? packet pos) [
      | none ↦ leave fault
      | some size ↦
          if size == 0
          then leave (stopped (pos + 1) hostname)
          else read_label packet (pos + 1) size hostname
    ]
    else leave (stopped pos hostname)

pub parse_name : ℕ → Bytes → ℕ → Bytes → Outcome
parse_name zero packet pos hostname = running
parse_name (suc fuel) packet pos hostname = elim (parse_round packet pos hostname) [
  | again pos' hostname' ↦ parse_name fuel packet pos' hostname'
  | leave outcome ↦ outcome
]

-- `!(data[6] == 0 && data[7] == 0)`; a missing byte is a read out of range.
unfoldable pub has_response : Bytes → Option Bool
has_response packet = elim (get_elem? packet 6) [
  | none ↦ none
  | some high ↦ elim (get_elem? packet 7) [
    | none ↦ none
    | some low ↦ some (not (high == 0 && low == 0))
  ]
]

-- What `parsePacket` returns: a text, an exception or undefined read, or not yet anything.
pub data Parsed : Type 0 where
  pending crash : Parsed
  name : Bytes → Parsed

-- What is left to do behind the loop: the name counts only in a packet with answers.
pub finish : Bool → Outcome → Parsed
finish answers running = pending
finish answers fault = crash
finish answers rejected = name []
finish answers (stopped pos hostname) = if answers then name hostname else name []

unfoldable pub parse_packet : ℕ → Bool → Bytes → Parsed
unfolding parse_name parse_round read_label finish
parse_packet fuel verbose packet =
    if ltb (length packet) (length query_header + 4) then name [] else elim (has_response packet) [
      | none ↦ crash
      | some answers ↦
          if not verbose && not answers
          then name []
          else finish answers (parse_name fuel packet (length query_header) [])
    ]
