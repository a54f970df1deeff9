-- ===== src/Loop/Handle/Settings.antt =====
-- What `handleMessage` of loop.h leaves alone.
use sponsoryeet.Prelude.{
  ◌≡◌, refl, ap, ◌∙◌, not, ◌&&◌, Bool, Bool-cases, inl, inr, Bytes, codes, bytes_eq, is_empty,
}
use sponsoryeet.Cast.Protobuf.{Protobuf}
use sponsoryeet.Cast.Message.{CastMessage}
use sponsoryeet.State.{Double, Os, Matcher, Machine, Action}
use sponsoryeet.State.View.{KeepsView}
use sponsoryeet.Connection.{Connection}
use sponsoryeet.Extract.{regex_extract}
use sponsoryeet.Chromecast.{MessageType, Namespace, send_simple}
use sponsoryeet.Loop.Handle.{
  video_regex, note_app, update_numbers, update_session, update_video, schedule,
  handle_media_status, handle_message,
}
use sponsoryeet.Loop.Handle.Follows.{handle_message-Follows}
use sponsoryeet.Loop.Handle.Kept.{
  Kept, Settings, settings, update_numbers-Keeps, update_session-Keeps, schedule-Keeps,
  skip_ad-Keeps,
}
use sponsoryeet.Chromecast.Effects.{send_simple-globals}
use sponsoryeet.Sponsor.Globals.{download_segments-globals}

module _ {D W : Type 0} (double : Double D) (os : Os W) (m : Matcher D W) (p : Protobuf CastMessage)
    (first : Bool) where
  abbrev of_kept : Kept D → Settings
  of_kept k = k.settings

  abbrev Keeps : {A : Type 0} → Action D W A → Type 0
  Keeps = KeepsView settings

  send_simple-Keeps :
      (conn : Connection) (type : MessageType) (urn : Namespace)
      → Keeps (send_simple double os p first conn type urn)
  send_simple-Keeps conn type urn s =
      ap settings (send_simple-globals double os p first conn type urn s)

  update_video-Keeps : (payload : Bytes) → Keeps (update_video double os m p first payload)
  unfolding update_video
  update_video-Keeps payload s =
      let video_id = regex_extract os m video_regex payload in
      let same = ap settings (download_segments-globals os m video_id s) in
      elim (Bool-cases
        (not (is_empty video_id) && not (bytes_eq video_id s.globals.current_video))) [
          | inl e ↦ rw e same
          | inr e ↦ rw e refl
        ]

  pub handle_media_status-Keeps :
      (conn : Connection) (payload : Bytes)
      → Keeps (handle_media_status double os m p first conn payload)
  unfolding handle_media_status
  handle_media_status-Keeps conn payload s =
      let s₁ = (update_numbers double os m p first payload s).1 in
      let s₂ = (update_session double os m p first payload s₁).1 in
      let s₃ = (update_video double os m p first payload s₂).1 in
      let s₄ = (schedule double os m p first conn s₃).1 in
      let noted =
        ap of_kept (update_session-Keeps double os m p first payload s₁)
        ∙ ap of_kept (update_numbers-Keeps double os m p first payload s) in
      elim (Bool-cases s₂.globals.youtube) [
        | inl e ↦ rw e (
            ap of_kept (skip_ad-Keeps double os m p first conn payload s₄)
            ∙ ap of_kept (schedule-Keeps double os m p first conn s₃)
            ∙ update_video-Keeps payload s₂
            ∙ noted)
        | inr e ↦ rw e noted
      ]

  note_app-Keeps : (display_name : Bytes) → Keeps (note_app double os m p first display_name)
  unfolding note_app
  note_app-Keeps display_name s = elim (Bool-cases (bytes_eq display_name (codes "YouTube"))) [
    | inl e ↦ rw e refl
    | inr e ↦ elim (Bool-cases (is_empty display_name)) [
      | inl f ↦ rw (e, f) refl
      | inr f ↦ rw (e, f) refl
    ]
  ]

  -- No message changes whether the program runs, what the user has chosen or the time of the last sign
  -- of life, whatever it holds, whether or not it can be parsed, and whatever the calls answer.
  pub handle_message-settings :
      (conn : Connection) (input : Bytes) (s : Machine D W)
      → settings (handle_message double os m p first conn input s).1.globals ≡ settings s.globals
  handle_message-settings =
      handle_message-Follows double os m p first (λ g h. settings h ≡ settings g)
        (record { quiet = λ g h e. ap of_kept e; follow = λ g h k a b. b ∙ a })
        handle_media_status-Keeps note_app-Keeps
