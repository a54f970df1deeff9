-- ===== src/Chromecast/Released.antt =====
-- The senders of chromecast.h take and free nothing.
use sponsoryeet.State.Bag.{Bag}
use sponsoryeet.Prelude.{
  ◌%◌, ◌^◌, refl, Bool, not, ◌&&◌, ◌||◌, Bool-cases, inl, inr, is_empty, Bytes,
}
use sponsoryeet.Cast.Protobuf.{Protobuf}
use sponsoryeet.Cast.Message.{CastMessage, size_content, out_content}
use sponsoryeet.State.{Double, Os, Action}
use sponsoryeet.State.World.{KeepsWorld}
use sponsoryeet.Connection.{Connection, write}
use sponsoryeet.Connection.Released.{Holds}
use sponsoryeet.Chromecast.{
  Namespace, MessageType, is_count, is_message_count, is_get_status, outgoing, big_endian,
  send_message, send_simple, seek, send_simple_media, load_media,
}

module _ {D W : Type 0} (double : Double D) (os : Os W) (p : Protobuf CastMessage) (first : Bool)
    (held : W → Bag) (holds : Holds os held) where
  abbrev Keeps : {A : Type 0} → Action D W A → Type 0
  Keeps = KeepsWorld held

  send_message-held :
      (conn : Connection) (ns text : Bytes) → Keeps (send_message double os p first conn ns text)
  unfolding send_message write
  send_message-held conn ns text s =
      let msg = outgoing s.globals.dest ns text in
      let (done, buffer) = out_content p first msg (big_endian (size_content p msg % 2 ^ 32)) in
      elim (Bool-cases done) [
        | inl e ↦ rw e (holds.writes conn.handle buffer s.world)
        | inr e ↦ rw e refl
      ]

  pub send_simple-held :
      (conn : Connection) (type : MessageType) (urn : Namespace)
      → Keeps (send_simple double os p first conn type urn)
  unfolding send_simple
  send_simple-held conn type urn s = elim (Bool-cases (is_count urn || is_message_count type)) [
    | inl e ↦ rw e refl
    | inr e ↦ elim (Bool-cases (is_get_status type && not (is_empty s.globals.media_session))) [
      | inl k ↦ rw (e, k) (send_message-held conn _ _ _)
      | inr k ↦ rw (e, k) (send_message-held conn _ _ _)
    ]
  ]

  pub seek-held : (conn : Connection) (position : D) → Keeps (seek double os p first conn position)
  unfolding seek
  seek-held conn position s = elim (Bool-cases (is_empty s.globals.media_session)) [
    | inl e ↦ rw e refl
    | inr e ↦ rw e (send_message-held conn _ _ _)
  ]

  pub send_simple_media-held :
      (conn : Connection) (command : Bytes)
      → Keeps (send_simple_media double os p first conn command)
  unfolding send_simple_media
  send_simple_media-held conn command s = elim (Bool-cases (is_empty s.globals.media_session)) [
    | inl e ↦ rw e refl
    | inr e ↦ rw e (send_message-held conn _ _ _)
  ]

  pub load_media-held :
      (conn : Connection) (video : Bytes) (position : D)
      → Keeps (load_media double os p first conn video position)
  unfolding load_media
  load_media-held conn video position s = elim (Bool-cases (is_empty video)) [
    | inl e ↦ rw e refl
    | inr e ↦ rw e (send_message-held conn _ _ _)
  ]
