-- ===== src/Loop/Handle/Follows.antt =====
-- What holds of every change that `handleMessage` of loop.h makes, from what holds of a media status
-- and of the name of an application.
use sponsoryeet.Prelude.{
  ℕ, refl, ap, ◌∙◌, Bool, true, Bool-cases, inl, inr, Option, none, some, Bytes, codes, bytes_eq,
  is_empty,
}
use sponsoryeet.Cast.Protobuf.{Protobuf}
use sponsoryeet.Cast.Message.{CastMessage, parse_message}
use sponsoryeet.State.{Double, Globals, Os, Matcher, Action, return}
use sponsoryeet.State.View.{KeepsView}
use sponsoryeet.State.Follows.{Covers, Follows, choose-Follows}
use sponsoryeet.Connection.{Connection}
use sponsoryeet.Connection.Download.{find_text}
use sponsoryeet.Extract.{regex_extract}
use sponsoryeet.Chromecast.{
  MessageType, Namespace, send_simple, namespace_text, connection, receiver, heartbeat, media,
  connect, pong, get_status,
}
use sponsoryeet.Chromecast.Effects.{send_simple-globals}
use sponsoryeet.Loop.Handle.{
  blank, type_regex, name_regex, session_id_regex, note_app, note_dest, ask_media,
  handle_media_status, handle_heartbeat, handle_receiver_status, dispatch, handle_message,
}
use sponsoryeet.Loop.Handle.Kept.{kept}

module _ {D W : Type 0} (double : Double D) (os : Os W) (m : Matcher D W) (p : Protobuf CastMessage)
    (first : Bool) where
  abbrev Keeps : {A : Type 0} → Action D W A → Type 0
  Keeps = KeepsView kept

  send_simple-Keeps :
      (conn : Connection) (type : MessageType) (urn : Namespace)
      → Keeps (send_simple double os p first conn type urn)
  send_simple-Keeps conn type urn s =
      ap kept (send_simple-globals double os p first conn type urn s)

  handle_heartbeat-Keeps :
      (conn : Connection) (type : Bytes) → Keeps (handle_heartbeat double os m p first conn type)
  unfolding handle_heartbeat
  handle_heartbeat-Keeps conn type s = elim (Bool-cases (bytes_eq type (codes "PING"))) [
    | inl e ↦ rw e (send_simple-Keeps conn pong heartbeat s)
    | inr e ↦ rw e refl
  ]

  ask_media-Keeps :
      (conn : Connection) (found : Option ℕ) → Keeps (ask_media double os m p first conn found)
  unfolding ask_media
  ask_media-Keeps conn none s = refl
  ask_media-Keeps conn (some at) s =
      send_simple-Keeps conn get_status media
        (send_simple double os p first conn connect connection s).1
      ∙ send_simple-Keeps conn connect connection s

  note_dest-Keeps : (session_id : Bytes) → Keeps (note_dest double os m p first session_id)
  unfolding note_dest
  note_dest-Keeps session_id s = elim (Bool-cases (is_empty session_id)) [
    | inl e ↦ rw e refl
    | inr e ↦ rw e refl
  ]

  module _ (R : Globals D → Globals D → Type 0) (covers : Covers kept R)
      (statuses : (conn : Connection) (payload : Bytes)
        → Follows R (handle_media_status double os m p first conn payload))
      (apps : (name : Bytes) → Follows R (note_app double os m p first name)) where
    same : {A : Type 0} (x : Action D W A) → Keeps x → Follows R x
    same x h s = covers.quiet s.globals (x s).1.globals (h s)

    handle_receiver_status-Follows :
        (conn : Connection) (payload : Bytes)
        → Follows R (handle_receiver_status double os m p first conn payload)
    unfolding handle_receiver_status
    handle_receiver_status-Follows conn payload s =
        let s₁ =
          (note_dest double os m p first (regex_extract os m session_id_regex payload) s).1 in
        let s₂ = (note_app double os m p first (regex_extract os m name_regex payload) s₁).1 in
        let found = find_text (namespace_text media) payload in
        let s₃ = (ask_media double os m p first conn found s₂).1 in
        covers.follow s.globals s₁.globals s₃.globals
          (covers.quiet s.globals s₁.globals
            (note_dest-Keeps (regex_extract os m session_id_regex payload) s))
          (covers.follow s₁.globals s₂.globals s₃.globals
            (apps (regex_extract os m name_regex payload) s₁)
            (covers.quiet s₂.globals s₃.globals (ask_media-Keeps conn found s₂)))

    dispatch-Follows :
        (conn : Connection) (message : CastMessage) (type : Bytes)
        → Follows R (dispatch double os m p first conn message type)
    unfolding dispatch
    dispatch-Follows conn message type s =
        let closed : Globals D = record s.globals { current_status = codes "Disconnected" } in
        let asked = send_simple-Keeps conn connect connection (record s { globals = closed }) in
        let beat =
          same (handle_heartbeat double os m p first conn type) (handle_heartbeat-Keeps conn type)
            s in
        let nothing = covers.quiet s.globals s.globals refl in
        elim (Bool-cases (bytes_eq type (codes "CLOSE"))) [
          | inl a ↦ rw a (covers.quiet s.globals _ asked)
          | inr a ↦ elim (Bool-cases (bytes_eq type (codes "INVALID_REQUEST"))) [
            | inl b ↦ rw (a, b) (covers.quiet s.globals _ refl)
            | inr b ↦ elim (Bool-cases (bytes_eq type (codes "MEDIA_STATUS"))) [
              | inl c ↦ rw (a, b, c) (statuses conn message.payload_utf8 s)
              | inr c ↦ elim (Bool-cases (bytes_eq message.namespace (namespace_text heartbeat))) [
                | inl d ↦ rw (a, b, c, d) beat
                | inr d ↦ elim (Bool-cases (bytes_eq message.namespace (namespace_text receiver))) [
                  | inl e ↦
                      rw (a, b, c, d, e)
                        (choose-Follows R (bytes_eq type (codes "RECEIVER_STATUS"))
                          (handle_receiver_status double os m p first conn message.payload_utf8)
                          (return true) (handle_receiver_status-Follows conn message.payload_utf8)
                          (λ t. covers.quiet t.globals t.globals refl) s)
                  | inr e ↦ rw (a, b, c, d, e) nothing
                ]
              ]
            ]
          ]
        ]

    pub handle_message-Follows :
        (conn : Connection) (input : Bytes)
        → Follows R (handle_message double os m p first conn input)
    unfolding handle_message
    handle_message-Follows conn input s =
        let (parsed, message) = parse_message p input blank in
        let type = regex_extract os m type_regex message.payload_utf8 in
        let nothing = covers.quiet s.globals s.globals refl in
        elim (Bool-cases parsed) [
          | inl e ↦ elim (Bool-cases (is_empty message.payload_utf8)) [
            | inl f ↦ rw (e, f) nothing
            | inr f ↦ rw (e, f) (dispatch-Follows conn message type s)
          ]
          | inr e ↦ rw e nothing
        ]
