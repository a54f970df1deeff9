-- ===== src/Mdns/Query.antt =====
-- `openSocket`, `sendData`, `sendRequest`, `query` and `findChromecast` of mdns.h. Printing, with the
-- spinner and its counter, is left out.
pub mod Found
pub mod Failed
pub mod Starved
pub mod Kept
pub mod Globals
pub mod Released
use sponsoryeet.Prelude.{
  ℕ, zero, suc, ◌+◌, Bool, true, false, not, ◌||◌, Option, none, some, List, [], ◌∷◌, if◌then◌else◌,
  ◌==◌, ltb, ℤ, pos, negsuc, ltb_ℤ, length, Bytes, bytes_eq, is_empty,
}
use sponsoryeet.State.{Address, Os, Machine, Action, ◌>>=◌, ◌>>◌, return, get, call}
use sponsoryeet.Mdns.Packet.{query_name, request_packet, Parsed, parse_packet}
use sponsoryeet.Mdns.Packet

-- The socket options that are set, in their order.
pub data SocketOption : Type 0 where
  broadcast reuse_address multicast_ttl join_group : SocketOption

-- What `select` reports: its result, and which descriptors are ready.
pub record Events : Type 0 where
  pub count : ℤ
  pub stdin : Bool
  pub socket : Bool

-- What `recvfrom` fills in: the bytes are those that it wrote, as many as it returns.
pub record Datagram : Type 0 where
  pub size : ℤ
  pub bytes : Bytes
  pub is_inet : Bool
  pub sender : Address

-- The calls of the discovery. `running` is `s_running`, which the signal handler clears.
pub record Net (W : Type 0) : Type 0 where
  pub running : W → Bool × W
  pub datagram_socket : W → ℤ × W
  pub set_option : ℤ → SocketOption → W → ℤ × W
  pub bind : ℤ → W → ℤ × W
  pub send_to : ℤ → Bytes → W → ℤ × W
  pub select : ℤ → W → Events × W
  pub getchar : W → ℤ × W
  pub recv_from : ℤ → ℕ → W → Datagram × W
  pub eintr : ℕ

-- The variables of `query`: the size of `packet`, `endTime` and `*address`.
pub record Search : Type 0 where
  pub capacity : ℕ
  pub end_time : ℕ
  pub address : Address

-- A round goes on, or the function returns; `hung` is a call of `parsePacket` that does not come back.
pub data Next : Type 0 where
  searching found aborted : Search → Next
  hung : Next

abbrev pub is_negative : ℤ → Bool
is_negative (pos n) = false
is_negative (negsuc n) = true

abbrev pub is_nothing : ℤ → Bool
is_nothing (pos n) = n == 0
is_nothing (negsuc n) = false

-- `q` and escape.
abbrev pub quits : ℤ → Bool
quits (pos n) = n == b'q' || n == 27
quits (negsuc n) = false

-- What is left of a round once a packet is there, `packet.resize(size)` included.
unfoldable pub judge : ℕ → Bool → Search → Datagram → Next
judge fuel verbose s d =
    if is_negative d.size
    then aborted s
    else if not d.is_inet
    then searching s
    else elim (parse_packet fuel verbose d.bytes) [
      | Parsed.name text ↦
          let s' = record s { capacity = length d.bytes; address = d.sender } in
          if is_empty text
          then searching s'
          else if bytes_eq text query_name
          then found s'
          else searching s'
      | _ ↦ hung
    ]

module _ {D W : Type 0} (os : Os W) (net : Net W) where
  open net use {datagram_socket, set_option, bind, send_to, select, getchar, recv_from, eintr}

  -- Setting an option closes the socket if that fails.
  unfoldable pub with_options : ℤ → List SocketOption → Action D W ℤ → Action D W ℤ
  with_options fd [] after = after
  with_options fd (option ∷ rest) after = do
    st ← call (set_option fd option)
    let more = with_options fd rest after
    if is_negative st then (do closed ← call (os.close fd); return (negsuc 0)) else more

  unfoldable pub bind_and_join : ℤ → Action D W ℤ
  bind_and_join fd = do
    st ← call (bind fd)
    if is_negative st
        then (do closed ← call (os.close fd); return (negsuc 0))
        else with_options fd (join_group ∷ []) (return fd)

  unfoldable pub open_socket : Action D W ℤ
  open_socket = do
    fd ← call datagram_socket
    if is_negative fd
        then return (negsuc 0)
        else with_options fd (broadcast ∷ reuse_address ∷ multicast_ttl ∷ []) (bind_and_join fd)

  unfoldable pub send_data : ℤ → Bytes → Action D W Bool
  send_data fd text = do st ← call (send_to fd text); return (not (is_negative st))

  unfoldable pub send_request : ℤ → Action D W Bool
  send_request fd = elim (request_packet query_name) [
    | none ↦ return false
    | some packet ↦ send_data fd packet
  ]

  -- Behind `select`: a key, and then a packet.
  unfoldable pub receive : ℕ → ℤ → Events → Search → Action D W Next
  receive fuel fd events s = do
    g ← get
    key ← if events.stdin then call getchar else return (pos 0)
    if quits key
        then return (aborted s)
        else if not events.socket
        then return (searching s)
        else (do d ← call (recv_from fd s.capacity); return (judge fuel g.verbose s d))

  -- One round of `do … while (s_running)`. `errno` is read whether or not `select` failed.
  unfoldable pub query_round : ℕ → ℤ → Search → Action D W Next
  query_round fuel fd s = do
    now ← call os.time
    if ltb s.end_time now
        then (do
          sent ← send_request fd
          later ← call os.time
          return (searching (record s { end_time = later + 10 })))
        else (do
          events ← call (select fd)
          error ← call (λ w. (os.errno w, w))
          if error == eintr || is_nothing events.count || is_negative events.count
              then return (searching s)
              else receive fuel fd events s)

  -- `while (s_running)` behind a round that did not return.
  unfoldable pub go_on : (Search → Action D W Next) → Next → Action D W Next
  go_on again (searching s) = do
    more ← call net.running
    if more then again s else return (aborted s)
  go_on again (found s) = return (found s)
  go_on again (aborted s) = return (aborted s)
  go_on again hung = return hung

  -- `rounds` bounds the rounds; a search that is not over by then is `searching`.
  unfoldable pub query_loop : ℕ → ℕ → ℤ → Search → Action D W Next
  query_loop zero fuel fd s = return (searching s)
  query_loop (suc rounds) fuel fd s = do
    next ← query_round fuel fd s
    go_on (query_loop rounds fuel fd) next

  unfoldable pub query : ℕ → ℕ → ℤ → Address → Action D W Next
  query rounds fuel fd address = do
    now ← call os.time
    query_loop rounds fuel fd (record { capacity = 512; end_time = now + 10; address = address })

  -- `return 1` and `return 2` of a function into `bool` are `true`. The socket of a failed request
  -- stays open.
  unfoldable pub find_chromecast : ℕ → ℕ → Address → Action D W (Option (Bool × Address))
  find_chromecast rounds fuel address = do
    fd ← open_socket
    if is_negative fd then return (some (true, address)) else (do
      sent ← send_request fd
      if not sent then return (some (true, address)) else (do
        next ← query rounds fuel fd address
        elim next [
          | found s ↦ do
            closed ← call (os.close fd)
            return (some (true, record { host = s.address.host; port = 8009 }))
          | aborted s ↦ do closed ← call (os.close fd); return (some (false, s.address))
          | _ ↦ return none
        ]))
