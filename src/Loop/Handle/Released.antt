-- ===== src/Loop/Handle/Released.antt =====
-- `handleMessage` of loop.h gives back what it takes.
use sponsoryeet.State.Bag.{Bag}
use sponsoryeet.Prelude.{
  ℕ, refl, ◌∙◌, true, not, ◌&&◌, ◌||◌, ◌==◌, Bool, Bool-cases, inl, inr, Option, none, some, Bytes,
  codes, bytes_eq, is_empty,
}
use sponsoryeet.Cast.Protobuf.{Protobuf}
use sponsoryeet.Cast.Message.{CastMessage, parse_message}
use sponsoryeet.State.{Double, Globals, Os, Matcher, Action, return}
use sponsoryeet.State.World.{KeepsWorld, choose-KeepsWorld, Spares}
use sponsoryeet.Connection.{Connection}
use sponsoryeet.Connection.Released.{Holds}
use sponsoryeet.Connection.Download.{find_text}
use sponsoryeet.Connection.Download.Released.{download_file-holds}
use sponsoryeet.Extract.{regex_extract, extract_number, convert}
use sponsoryeet.Sponsor.Kept.{download_segments-Keeps}
use sponsoryeet.Chromecast.{
  MessageType, Namespace, send_simple, send_simple_media, namespace_text, connection, receiver,
  heartbeat, media, connect, pong, get_status,
}
use sponsoryeet.Chromecast.Released.{send_simple-held, send_simple_media-held, load_media-held}
use sponsoryeet.Loop.Position.{no_segments, nought, current_position, seconds_until_next_segment}
use sponsoryeet.Loop.Seek.Released.{current_position-held, maybe_seek-held}
use sponsoryeet.Loop.Handle.{
  video_regex, duration_regex, time_regex, custom_state_regex, blank, type_regex, name_regex,
  session_id_regex, note_duration, note_position, note_app, note_dest, ask_media, update_numbers,
  update_session, update_video, schedule, skip_ad, handle_media_status, handle_heartbeat,
  handle_receiver_status, dispatch, handle_message,
}

module _ {D W : Type 0} (double : Double D) (os : Os W) (m : Matcher D W) (p : Protobuf CastMessage)
    (first : Bool) (held : W → Bag) (holds : Holds os held) (spares : Spares os m held) where
  abbrev Keeps : {A : Type 0} → Action D W A → Type 0
  Keeps = KeepsWorld held

  convert-held : (text : Bytes) → Keeps (convert os m text)
  unfolding convert
  convert-held text s =
      let ((converted, used), w) = m.strtod text s.world in
      choose-KeepsWorld held (used == 0 || os.errno w == m.erange || not (m.is_finite converted))
        (return none) (return (some converted)) (λ t. refl) (λ t. refl) (record s { world = w })
      ∙ spares.converts text s.world

  extract_number-held : (regex payload : Bytes) → Keeps (extract_number os m regex payload)
  unfolding extract_number
  extract_number-held regex payload s =
      let text = regex_extract os m regex payload in
      choose-KeepsWorld held (is_empty text) (return none) (convert os m text) (λ t. refl)
        (convert-held text) s

  note_position-held : (position : Option D) → Keeps (note_position double os m p first position)
  unfolding note_position
  note_position-held none s = refl
  note_position-held (some d) s = spares.times s.world

  note_duration-held : (duration : Option D) → Keeps (note_duration double os m p first duration)
  unfolding note_duration
  note_duration-held none s = refl
  note_duration-held (some d) s = refl

  update_numbers-held : (payload : Bytes) → Keeps (update_numbers double os m p first payload)
  unfolding update_numbers
  update_numbers-held payload s =
      let (duration, s₁) = extract_number os m duration_regex payload s in
      let s₂ = (note_duration double os m p first duration s₁).1 in
      let (position, s₃) = extract_number os m time_regex payload s₂ in
      note_position-held position s₃
      ∙ extract_number-held time_regex payload s₂
      ∙ note_duration-held duration s₁
      ∙ extract_number-held duration_regex payload s

  update_session-held : (payload : Bytes) → Keeps (update_session double os m p first payload)
  unfolding update_session
  update_session-held payload s = refl

  update_video-held : (payload : Bytes) → Keeps (update_video double os m p first payload)
  unfolding update_video
  update_video-held payload s =
      let video_id = regex_extract os m video_regex payload in
      let same =
        download_segments-Keeps os m (λ t. held t.world) (λ text t. spares.converts text t.world)
          (λ t. spares.clears t.world) (download_file-holds os held holds) video_id s in
      elim (Bool-cases
        (not (is_empty video_id) && not (bytes_eq video_id s.globals.current_video))) [
          | inl e ↦ rw e same
          | inr e ↦ rw e refl
        ]

  position-held : Keeps (current_position double os)
  position-held = current_position-held double os p first held holds spares.times

  schedule-held : (conn : Connection) → Keeps (schedule double os m p first conn)
  unfolding schedule seconds_until_next_segment
  schedule-held conn s =
      let seeks = maybe_seek-held double os p first held holds spares.times conn in
      let (delta, s₁) = seconds_until_next_segment double os s in
      let same = position-held s in
      elim (Bool-cases (no_segments s.globals.current_segments)) [
        | inl e ↦ rw e refl
        | inr e ↦ elim (Bool-cases (double.le (nought double) delta)) [
          | inl f ↦ rw (e, f) (seeks _ ∙ spares.times s₁.world ∙ same)
          | inr f ↦ rw (e, f) (seeks s₁ ∙ same)
        ]
      ]

  skip_ad-held :
      (conn : Connection) (payload : Bytes) → Keeps (skip_ad double os m p first conn payload)
  unfolding skip_ad
  skip_ad-held conn payload s =
      let custom_state = regex_extract os m custom_state_regex payload in
      let (position, s₁) = current_position double os s in
      let s₂ = (send_simple_media double os p first conn (codes "STOP") s₁).1 in
      elim (Bool-cases (s.globals.adblock && bytes_eq custom_state (codes "1081"))) [
        | inl e ↦ rw e (
            load_media-held double os p first held holds conn s₂.globals.current_video _ s₂
            ∙ send_simple_media-held double os p first held holds conn (codes "STOP") s₁
            ∙ position-held s)
        | inr e ↦ rw e refl
      ]

  send_simple-kept :
      (conn : Connection) (type : MessageType) (urn : Namespace)
      → Keeps (send_simple double os p first conn type urn)
  send_simple-kept = send_simple-held double os p first held holds

  handle_media_status-held :
      (conn : Connection) (payload : Bytes)
      → Keeps (handle_media_status double os m p first conn payload)
  unfolding handle_media_status
  handle_media_status-held conn payload s =
      let s₁ = (update_numbers double os m p first payload s).1 in
      let s₂ = (update_session double os m p first payload s₁).1 in
      let s₃ = (update_video double os m p first payload s₂).1 in
      let s₄ = (schedule double os m p first conn s₃).1 in
      let noted = update_session-held payload s₁ ∙ update_numbers-held payload s in
      elim (Bool-cases s₂.globals.youtube) [
        | inl e ↦ rw e (
            skip_ad-held conn payload s₄
            ∙ schedule-held conn s₃
            ∙ update_video-held payload s₂
            ∙ noted)
        | inr e ↦ rw e noted
      ]

  handle_heartbeat-held :
      (conn : Connection) (type : Bytes) → Keeps (handle_heartbeat double os m p first conn type)
  unfolding handle_heartbeat
  handle_heartbeat-held conn type s = elim (Bool-cases (bytes_eq type (codes "PING"))) [
    | inl e ↦ rw e (send_simple-kept conn pong heartbeat s)
    | inr e ↦ rw e refl
  ]

  ask_media-held :
      (conn : Connection) (found : Option ℕ) → Keeps (ask_media double os m p first conn found)
  unfolding ask_media
  ask_media-held conn none s = refl
  ask_media-held conn (some at) s =
      send_simple-kept conn get_status media
        (send_simple double os p first conn connect connection s).1
      ∙ send_simple-kept conn connect connection s

  handle_receiver_status-held :
      (conn : Connection) (payload : Bytes)
      → Keeps (handle_receiver_status double os m p first conn payload)
  unfolding handle_receiver_status note_dest note_app
  handle_receiver_status-held conn payload s =
      let s₁ = (note_dest double os m p first (regex_extract os m session_id_regex payload) s).1 in
      let s₂ = (note_app double os m p first (regex_extract os m name_regex payload) s₁).1 in
      ask_media-held conn (find_text (namespace_text media) payload) s₂

  dispatch-held :
      (conn : Connection) (message : CastMessage) (type : Bytes)
      → Keeps (dispatch double os m p first conn message type)
  unfolding dispatch
  dispatch-held conn message type s =
      let status = handle_media_status-held conn message.payload_utf8 s in
      let beat = handle_heartbeat-held conn type s in
      elim (Bool-cases (bytes_eq type (codes "CLOSE"))) [
        | inl a ↦
            let closed : Globals D = record s.globals { current_status = codes "Disconnected" } in
            rw a (send_simple-kept conn connect connection (record s { globals = closed }))
        | inr a ↦ elim (Bool-cases (bytes_eq type (codes "INVALID_REQUEST"))) [
          | inl b ↦ rw (a, b) refl
          | inr b ↦ elim (Bool-cases (bytes_eq type (codes "MEDIA_STATUS"))) [
            | inl c ↦ rw (a, b, c) status
            | inr c ↦ elim (Bool-cases (bytes_eq message.namespace (namespace_text heartbeat))) [
              | inl d ↦ rw (a, b, c, d) beat
              | inr d ↦ elim (Bool-cases (bytes_eq message.namespace (namespace_text receiver))) [
                | inl e ↦
                    rw (a, b, c, d, e)
                      (choose-KeepsWorld held (bytes_eq type (codes "RECEIVER_STATUS"))
                        (handle_receiver_status double os m p first conn message.payload_utf8)
                        (return true) (handle_receiver_status-held conn message.payload_utf8)
                        (λ t. refl) s)
                | inr e ↦ rw (a, b, c, d, e) refl
              ]
            ]
          ]
        ]
      ]

  pub handle_message-held :
      (conn : Connection) (input : Bytes) → Keeps (handle_message double os m p first conn input)
  unfolding handle_message
  handle_message-held conn input s =
      let (parsed, message) = parse_message p input blank in
      let type = regex_extract os m type_regex message.payload_utf8 in
      elim (Bool-cases parsed) [
        | inl e ↦ elim (Bool-cases (is_empty message.payload_utf8)) [
          | inl f ↦ rw (e, f) refl
          | inr f ↦ rw (e, f) (dispatch-held conn message type s)
        ]
        | inr e ↦ rw e refl
      ]
