-- ===== src/Loop/Handle.antt =====
-- `handleMessage` of loop.h. Printing is left out.
pub mod OutOfRange
pub mod Kept
pub mod Follows
pub mod Settings
pub mod Video
pub mod Released
pub mod Heartbeat
use sponsoryeet.Prelude.{
  Bool, true, false, not, ◌&&◌, Option, ℕ, none, some, [], ◌++◌, if◌then◌else◌, Bytes, codes,
  bytes_eq, is_empty, pos,
}
use sponsoryeet.Cast.Protobuf.{Protobuf}
use sponsoryeet.Cast.Message.{CastMessage, parse_message}
use sponsoryeet.State.{Double, Os, Matcher, Action, ◌>>=◌, ◌>>◌, return, get, modify, call}
use sponsoryeet.Connection.{Connection}
use sponsoryeet.Connection.Download.{find_text}
use sponsoryeet.Extract.{regex_extract, extract_number}
use sponsoryeet.Sponsor.{download_segments}
use sponsoryeet.Chromecast.{
  send_simple, send_simple_media, load_media, namespace_text, connection, receiver, heartbeat,
  media, connect, pong, get_status,
}
use sponsoryeet.Loop.Position.{
  no_segments, minus_one, nought, current_position, seconds_until_next_segment,
}
use sponsoryeet.Loop.Seek.{maybe_seek}

-- A message with every field as `CastMessage` begins.
abbrev pub blank : CastMessage
blank = record {
  protocol_version = 0;
  source_id = [];
  destination_id = [];
  namespace = [];
  payload_type = 0;
  payload_utf8 = [];
  payload_binary = [];
}

-- The patterns that are searched for.
pub type_regex : Bytes
type_regex = codes "\"type\"\\s*:\\s*\"([^\"]+)\""

pub duration_regex : Bytes
duration_regex = codes "\"duration\"\\s*:\\s*([0-9.]+)"

pub time_regex : Bytes
time_regex = codes "\"currentTime\"\\s*:\\s*([0-9.]+)"

pub state_regex : Bytes
state_regex = codes "\"playerState\"\\s*:\\s*\"([A-Z]+)\""

pub session_regex : Bytes
session_regex = codes "\"mediaSessionId\"\\s*:\\s*([0-9]+)"

pub video_regex : Bytes
video_regex = codes "\"contentId\"\\s*:\\s*\"([A-Za-z0-9_-]+)\""

pub custom_state_regex : Bytes
custom_state_regex = codes "\"playerState\"\\s*:\\s*(-?[0-9]+)"

pub name_regex : Bytes
name_regex = codes "\"displayName\"\\s*:\\s*\"([^\"]+)\""

pub session_id_regex : Bytes
session_id_regex = codes "\"sessionId\"\\s*:\\s*\"([^\"]+)\""

module _ {D W : Type 0} (double : Double D) (os : Os W) (m : Matcher D W) (p : Protobuf CastMessage)
    (first : Bool) where
  pub note_duration : Option D → Action D W (Unit {0})
  note_duration none = return tt
  note_duration (some d) = modify (λ g. record g { current_duration = d })

  -- A position is noted with the time.
  pub note_position : Option D → Action D W (Unit {0})
  note_position none = return tt
  note_position (some d) = do
    modify (λ g. record g { current_position = d })
    now ← call os.time
    modify (λ g. record g { last_position_fetched = double.of_int (pos now) })

  pub update_numbers : Bytes → Action D W (Unit {0})
  update_numbers payload = do
    duration ← extract_number os m duration_regex payload
    note_duration duration
    position ← extract_number os m time_regex payload
    note_position position

  -- The player's state and the media session, where the payload names them.
  pub update_session : Bytes → Action D W (Unit {0})
  update_session payload = do
    let state = regex_extract os m state_regex payload
    modify (λ g. if is_empty state then g else record g {
      currently_playing = bytes_eq state (codes "PLAYING");
      current_status = state;
    })
    let session = regex_extract os m session_regex payload
    modify (λ g. if is_empty session then g else record g { media_session = session })

  -- A new video brings its segments.
  pub update_video : Bytes → Action D W (Unit {0})
  update_video payload = do
    g ← get
    let video_id = regex_extract os m video_regex payload
    if not (is_empty video_id) && not (bytes_eq video_id g.current_video)
        then (do
          segments ← download_segments os m video_id
          modify (λ h. record h {
            current_segments = segments;
            current_video = video_id;
            next_segment_start = minus_one double;
          }))
        else return tt

  -- The time of the next segment, and a seek if one plays.
  pub schedule : Connection → Action D W (Unit {0})
  schedule conn = do
    g ← get
    if no_segments g.current_segments then return tt else (do
      delta ← seconds_until_next_segment double os
      if double.le (nought double) delta
          then (do
            now ← call os.time
            modify
                (λ h. record h { next_segment_start = double.add (double.of_int (pos now)) delta }))
          else return tt
      maybe_seek double os p first conn)

  -- An advertisement is skipped by opening the video again one second on.
  pub skip_ad : Connection → Bytes → Action D W (Unit {0})
  skip_ad conn payload = do
    g ← get
    let custom_state = regex_extract os m custom_state_regex payload
    if g.adblock && bytes_eq custom_state (codes "1081")
        then (do
          position ← current_position double os
          let known = if double.lt position (nought double) then nought double else position
          stopped ← send_simple_media double os p first conn (codes "STOP")
          h ← get
          loaded ←
              load_media double os p first conn h.current_video
                (double.add known (double.of_int (pos 1)))
          return tt)
        else return tt

  pub handle_media_status : Connection → Bytes → Action D W Bool
  handle_media_status conn payload = do
    update_numbers payload
    update_session payload
    g ← get
    if not g.youtube
        then return true
        else (do update_video payload; schedule conn; skip_ad conn payload; return true)

  pub handle_heartbeat : Connection → Bytes → Action D W Bool
  handle_heartbeat conn type =
      if bytes_eq type (codes "PING")
      then (do sent ← send_simple double os p first conn pong heartbeat; return true)
      else return true

  -- The session of the application, where the payload names it.
  pub note_dest : Bytes → Action D W (Unit {0})
  note_dest session_id =
      modify (λ g. if is_empty session_id then g else record g { dest = session_id })

  -- The application that runs, where the payload names it.
  unfoldable pub note_app : Bytes → Action D W (Unit {0})
  note_app display_name = modify (λ g.
      if bytes_eq display_name (codes "YouTube")
      then record g { youtube = true }
      else if is_empty display_name
      then g
      else record g {
        youtube = false;
        current_status = codes "Not youtube: '" ++ display_name ++ codes "'";
      })

  -- If the payload names the media namespace, the application is connected to and asked.
  pub ask_media : Connection → Option ℕ → Action D W Bool
  ask_media conn none = return true
  ask_media conn (some at) = do
    connected ← send_simple double os p first conn connect connection
    asked ← send_simple double os p first conn get_status media
    return true

  pub handle_receiver_status : Connection → Bytes → Action D W Bool
  handle_receiver_status conn payload = do
    note_dest (regex_extract os m session_id_regex payload)
    note_app (regex_extract os m name_regex payload)
    ask_media conn (find_text (namespace_text media) payload)

  -- By the type of the message, then by its namespace.
  pub dispatch : Connection → CastMessage → Bytes → Action D W Bool
  dispatch conn message type =
      if bytes_eq type (codes "CLOSE")
      then (do
        modify (λ g. record g { current_status = codes "Disconnected" })
        sent ← send_simple double os p first conn connect connection
        return true)
      else if bytes_eq type (codes "INVALID_REQUEST")
      then (do modify (λ g. record g { current_status = codes "Error" }); return false)
      else if bytes_eq type (codes "MEDIA_STATUS")
      then handle_media_status conn message.payload_utf8
      else if bytes_eq message.namespace (namespace_text heartbeat)
      then handle_heartbeat conn type
      else if bytes_eq message.namespace (namespace_text receiver)
      then (if bytes_eq type (codes "RECEIVER_STATUS")
          then handle_receiver_status conn message.payload_utf8
          else return true)
      else return true

  unfoldable pub handle_message : Connection → Bytes → Action D W Bool
  unfolding dispatch
  handle_message conn input = do
    let (parsed, message) = parse_message p input blank
    let type = regex_extract os m type_regex message.payload_utf8
    if not parsed
        then return false
        else if is_empty message.payload_utf8
        then return true
        else dispatch conn message type
