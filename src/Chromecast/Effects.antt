-- ===== src/Chromecast/Effects.antt =====
-- What the senders of chromecast.h do to the program's variables.
use sponsoryeet.Prelude.{
  ◌+◌, ◌≡◌, ap, Bool, not, ◌&&◌, ◌||◌, if◌then◌else◌, Bool-cases, inl, inr, is_empty, Bytes, arith,
}
use sponsoryeet.Cast.Protobuf.{Protobuf}
use sponsoryeet.Cast.Message.{CastMessage}
use sponsoryeet.State.{Double, Globals, Os, Machine}
use sponsoryeet.Connection.{Connection, write}
use sponsoryeet.Chromecast.{
  Namespace, MessageType, is_count, is_message_count, is_get_status, is_heartbeat, send_message,
  send_simple, seek, send_simple_media, load_media,
}

module _ {D W : Type 0} (double : Double D) (os : Os W) (p : Protobuf CastMessage)
    (first : Bool) where
  send_message-globals :
      (conn : Connection) (ns text : Bytes) (s : Machine D W)
      → (send_message double os p first conn ns text s).1.globals ≡ s.globals
  unfolding send_message write
  send_message-globals conn ns text s = ground arith

  abbrev restore : Machine D W → Globals D → Globals D
  restore s g = record g { verbose = s.globals.verbose }

  abbrev pub requests : Bool → Globals D → Globals D
  requests sent g = record g { request_id = if sent then g.request_id + 1 else g.request_id }

  pub send_simple-globals :
      (conn : Connection) (type : MessageType) (urn : Namespace) (s : Machine D W)
      → (send_simple double os p first conn type urn s).1.globals
        ≡ requests
            (not (is_count urn || is_message_count type)
              && (is_get_status type && not (is_empty s.globals.media_session)))
            s.globals
  unfolding send_simple
  send_simple-globals conn type urn s = elim (Bool-cases (is_count urn || is_message_count type)) [
    | inl e ↦ rw e
    | inr e ↦ elim (Bool-cases (is_get_status type && not (is_empty s.globals.media_session))) [
      | inl k ↦ rw (e, k) (send_message-globals conn _ _ _)
      | inr k ↦ elim (Bool-cases (is_heartbeat type)) [
        | inl b ↦ rw (e, k, b) (ap (restore s) (send_message-globals conn _ _ _))
        | inr b ↦ rw (e, k, b) (ap (restore s) (send_message-globals conn _ _ _))
      ]
    ]
  ]

  -- `seek` changes no variable but the number of the next request, and that only with a media session.
  pub seek-globals :
      (conn : Connection) (position : D) (s : Machine D W)
      → (seek double os p first conn position s).1.globals
        ≡ requests (not (is_empty s.globals.media_session)) s.globals
  unfolding seek
  seek-globals conn position s = elim (Bool-cases (is_empty s.globals.media_session)) [
    | inl e ↦ rw e
    | inr e ↦ rw e (send_message-globals conn _ _ _)
  ]

  pub send_simple_media-globals :
      (conn : Connection) (command : Bytes) (s : Machine D W)
      → (send_simple_media double os p first conn command s).1.globals
        ≡ requests (not (is_empty s.globals.media_session)) s.globals
  unfolding send_simple_media
  send_simple_media-globals conn command s = elim (Bool-cases (is_empty s.globals.media_session)) [
    | inl e ↦ rw e
    | inr e ↦ rw e (send_message-globals conn _ _ _)
  ]

  pub load_media-globals :
      (conn : Connection) (video : Bytes) (position : D) (s : Machine D W)
      → (load_media double os p first conn video position s).1.globals
        ≡ requests (not (is_empty video)) s.globals
  unfolding load_media
  load_media-globals conn video position s = elim (Bool-cases (is_empty video)) [
    | inl e ↦ rw e
    | inr e ↦ rw e (send_message-globals conn _ _ _)
  ]

  -- None of the four senders changes a variable of the program other than the number of the next
  -- request, verbosity included; that number grows by one where the message carries it. `sendSimple`
  -- numbers only a status request while a media session is known, `seek` and `sendSimpleMedia` send
  -- only with a media session, and `loadMedia` only a video that is not empty.
  senders-globals :
      (conn : Connection) (type : MessageType) (urn : Namespace) (command video : Bytes)
      (position : D) (s : Machine D W)
      → let session = not (is_empty s.globals.media_session) in
        ((send_simple double os p first conn type urn s).1.globals
          ≡ requests
              (not (is_count urn || is_message_count type) && (is_get_status type && session))
              s.globals)
        × ((seek double os p first conn position s).1.globals ≡ requests session s.globals)
        × ((send_simple_media double os p first conn command s).1.globals
            ≡ requests session s.globals)
        × ((load_media double os p first conn video position s).1.globals
            ≡ requests (not (is_empty video)) s.globals)
  senders-globals conn type urn command video position s = (
    send_simple-globals conn type urn s,
    seek-globals conn position s,
    send_simple_media-globals conn command s,
    load_media-globals conn video position s,
  )
