-- ===== src/Chromecast.antt =====
-- chromecast.h: the messages to the device. A message goes out as its size in four bytes, the most
-- significant first, and its serialized fields behind it.
pub mod Frame
pub mod Effects
pub mod Released
use sponsoryeet.Prelude.{
  ℕ, zero, suc, ◌+◌, ◌*◌, ◌/◌, ◌%◌, ◌^◌, ◌≡◌, Bool, true, false, not, ◌&&◌, ◌||◌, List, [], ◌∷◌,
  ◌++◌, if◌then◌else◌, ◌==◌, ltb, Bytes, codes, bytes_eq, is_empty,
}
use sponsoryeet.Cast.Protobuf.{Protobuf}
use sponsoryeet.Cast.Message.{CastMessage, cast_v2_1_0, payload_string, size_content, out_content}
use sponsoryeet.State.{Double, Globals, Os, Machine, Action, ◌>>=◌, ◌>>◌, return, get, modify}
use sponsoryeet.Connection.{Connection, write}

-- `htonl` of a `uint32_t`, as the bytes that `memcpy` takes from it.
abbrev pub big_endian : ℕ → Bytes
big_endian n = (n / 2 ^ 24 % 256) ∷ (n / 2 ^ 16 % 256) ∷ (n / 2 ^ 8 % 256) ∷ (n % 256) ∷ []

-- `std::to_string` of a number that is not negative: its decimal digits.
abbrev digits : ℕ → ℕ → Bytes → Bytes
digits zero n out = out
digits (suc fuel) n out =
    let rest = digits fuel (n / 10) ((b'0' + n % 10) ∷ out) in
    if ltb n 10 then (b'0' + n % 10) ∷ out else rest

unfoldable pub decimal : ℕ → Bytes
decimal n = digits (suc n) n []

pub data Namespace : Type 0 where
  connection receiver heartbeat media namespaces_count : Namespace

-- `ns::strings`; the last enumerator only counts the others.
unfoldable pub namespace_text : Namespace → Bytes
namespace_text connection = codes "urn:x-cast:com.google.cast.tp.connection"
namespace_text receiver = codes "urn:x-cast:com.google.cast.receiver"
namespace_text heartbeat = codes "urn:x-cast:com.google.cast.tp.heartbeat"
namespace_text media = codes "urn:x-cast:com.google.cast.media"
namespace_text namespaces_count = []

pub data MessageType : Type 0 where
  connect ping pong get_status media_status simple_message_count : MessageType

-- `msgs` of `sendSimple`.
unfoldable pub message_text : MessageType → Bytes
message_text connect = codes "{\"type\": \"CONNECT\"}"
message_text ping = codes "{\"type\": \"PING\"}"
message_text pong = codes "{\"type\": \"PONG\"}"
message_text get_status = codes "{\"type\": \"GET_STATUS\", \"requestId\": 1}"
message_text media_status = codes "{\"type\": \"MEDIA_STATUS\"}"
message_text simple_message_count = []

abbrev pub is_count : Namespace → Bool
is_count namespaces_count = true
is_count _ = false

abbrev pub is_message_count : MessageType → Bool
is_message_count simple_message_count = true
is_message_count _ = false

abbrev pub is_get_status : MessageType → Bool
is_get_status get_status = true
is_get_status _ = false

abbrev pub is_heartbeat : MessageType → Bool
is_heartbeat ping = true
is_heartbeat pong = true
is_heartbeat _ = false

-- The message that `sendMessage` fills in.
unfoldable pub outgoing : Bytes → Bytes → Bytes → CastMessage
outgoing dest ns message = record {
  protocol_version = cast_v2_1_0;
  source_id = codes "sender-0";
  destination_id = if is_empty dest then codes "receiver-0" else dest;
  namespace = ns;
  payload_type = payload_string;
  payload_utf8 = message;
  payload_binary = [];
}

-- The text that `seek` sends.
abbrev pub seek_text : {D : Type 0} → Double D → ℕ → Bytes → D → Bytes
seek_text double id session position =
    codes "{  \"type\": \"SEEK\",  \"requestId\": "
    ++ decimal id
    ++ codes ",  \"mediaSessionId\": \""
    ++ session
    ++ codes "\",  \"currentTime\": "
    ++ double.to_string position
    ++ codes "}"

-- `first` is the order that `out_content` leaves open.
module _ {D W : Type 0} (double : Double D) (os : Os W) (p : Protobuf CastMessage)
    (first : Bool) where
  -- Printing in verbose mode is left out.
  unfoldable pub send_message : Connection → Bytes → Bytes → Action D W Bool
  send_message conn ns message = do
    g ← get
    let msg = outgoing g.dest ns message
    let header = big_endian (size_content p msg % 2 ^ 32)
    let (done, buffer) = out_content p first msg header
    if done then write os conn buffer else return false

  -- `s_requestId++`.
  abbrev next_request : Action D W ℕ
  next_request = do
    g ← get
    modify (λ h. record h { request_id = h.request_id + 1 })
    return g.request_id

  unfoldable pub send_simple : Connection → MessageType → Namespace → Action D W Bool
  send_simple conn type urn = do
    g ← get
    if is_count urn || is_message_count type
        then return false
        else if is_get_status type && not (is_empty g.media_session)
        then (do
          id ← next_request
          send_message conn (namespace_text media) (
              codes "{  \"type\": \"GET_STATUS\",  \"requestId\": "
              ++ decimal id
              ++ codes ",  \"mediaSessionId\": \""
              ++ g.media_session
              ++ codes "\"}"))
        else (do
          modify (λ h. if is_heartbeat type then record h { verbose = false } else h)
          ret ← send_message conn (namespace_text urn) (message_text type)
          modify (λ h. record h { verbose = g.verbose })
          return ret)

  unfoldable pub seek : Connection → D → Action D W Bool
  seek conn position = do
    g ← get
    if is_empty g.media_session then return false else (do
      id ← next_request
      send_message conn (namespace_text media) (seek_text double id g.media_session position))

  unfoldable pub send_simple_media : Connection → Bytes → Action D W Bool
  send_simple_media conn command = do
    g ← get
    if is_empty g.media_session then return false else (do
      id ← next_request
      send_message conn (namespace_text media) (
          codes "{  \"type\": \""
          ++ command
          ++ codes "\",  \"requestId\": "
          ++ decimal id
          ++ codes ",  \"mediaSessionId\": \""
          ++ g.media_session
          ++ codes "\" }"))

  unfoldable pub load_media : Connection → Bytes → D → Action D W Bool
  load_media conn video position = if is_empty video then return false else (do
    id ← next_request
    send_message conn (namespace_text media) (
        codes "{  \"type\": \"LOAD\",  \"requestId\": "
        ++ decimal id
        ++ codes ",  \"media\": {   \"contentId\": \""
        ++ video
        ++ codes
            "\",    \"streamType\": \"BUFFERED\",    \"contentType\": \"x-youtube/video\"  },  \"currentTime\": "
        ++ double.to_string position
        ++ codes "}"))
