-- ===== src/Loop/Watch/Handled.antt =====
-- handleMessage of loop.h as steps of what is watched.
use mathlib.Core.Path.{ap₂}
use sponsoryeet.Prelude.{
  List, ◌≡◌, refl, ap, ◌∙◌, Bool, true, false, ◌&&◌, Bool-cases, inl, inr, if◌then◌else◌, Bytes,
  codes, bytes_eq, is_empty, arith,
}
use sponsoryeet.Cast.Protobuf.{Protobuf}
use sponsoryeet.Cast.Message.{CastMessage}
use sponsoryeet.State.{Double, Os, Matcher, Machine}
use sponsoryeet.State.Follows.{Covers, Follows}
use sponsoryeet.Connection.{Connection}
use sponsoryeet.Extract.{regex_extract}
use sponsoryeet.Sponsor.{download_segments}
use sponsoryeet.Loop.Handle.{note_app, handle_media_status, handle_message, video_regex}
use sponsoryeet.Loop.Handle.Kept.{Kept, Watched, kept, watched}
use sponsoryeet.Loop.Handle.Follows.{handle_message-Follows}
use sponsoryeet.Loop.Handle.Settings.{handle_media_status-Keeps}
use sponsoryeet.Loop.Handle.Video.{is_new, noted, noted-kept, handle_media_status-watched}
use sponsoryeet.Loop.Watch.{Viewer, application, plays, stays, moves, Moves-trans, Steps, still}

abbrev viewer_of : {D : Type 0} → List Bytes → Watched D → Viewer D
viewer_of categories w = record { categories = categories; watched = w }

module _ {D W : Type 0} (double : Double D) (os : Os W) (m : Matcher D W) (p : Protobuf CastMessage)
    (first : Bool) where
  abbrev of_kept : Kept D → Viewer D
  of_kept k = record { categories = k.settings.categories; watched = k.watched }

  Steps-Covers : Covers kept (Steps os m)
  Steps-Covers = record {
    quiet = λ g h e. still os m g h (ap of_kept e);
    follow = λ g h k r t. Moves-trans os m r t;
  }

  note_app-Steps : (name : Bytes) → Follows (Steps os m) (note_app double os m p first name)
  unfolding note_app
  note_app-Steps name s = elim (Bool-cases (bytes_eq name (codes "YouTube"))) [
    | inl e ↦ rw e (moves stays (application true refl))
    | inr e ↦ elim (Bool-cases (is_empty name)) [
      | inl f ↦ rw (e, f) stays
      | inr f ↦ rw (e, f) (moves stays (application false refl))
    ]
  ]

  media_status-categories :
      (conn : Connection) (payload : Bytes) (s : Machine D W)
      → (handle_media_status double os m p first conn payload s).1.globals.categories
        ≡ s.globals.categories
  media_status-categories conn payload s =
      ap (λ t. t.categories) (handle_media_status-Keeps double os m p first conn payload s)

  handle_media_status-Steps :
      (conn : Connection) (payload : Bytes)
      → Follows (Steps os m) (handle_media_status double os m p first conn payload)
  handle_media_status-Steps conn payload s =
      let after = (handle_media_status double os m p first conn payload s).1 in
      let video = regex_extract os m video_regex payload in
      let s' = noted double os m p first payload s in
      let brought = (download_segments os m video s').0 in
      let named_video : Watched D = record { youtube = true; video = video; segments = brought } in
      let viewer_if = λ (b : Bool).
        viewer_of s.globals.categories (if b then named_video else watched s.globals) in
      let seen = handle_media_status-watched double os m p first conn payload s in
      let same = media_status-categories conn payload s in
      let reached = ap₂ (λ c w. viewer_of c w) same seen in
      elim (Bool-cases (s.globals.youtube && is_new video s.globals)) [
        | inl e ↦
            let playing : s.globals.youtube ≡ true = ground (arith, e) in
            let named : is_empty video ≡ false = ground (arith, e) in
            let new : bytes_eq video s.globals.current_video ≡ false = ground (arith, e) in
            let categories =
              ap (λ (k : Kept D). k.settings.categories)
                (noted-kept double os m p first payload s) in
            moves stays (
              plays video brought playing named new (s', categories, refl)
                (reached ∙ ap viewer_if e))
        | inr e ↦ still os m s.globals after.globals (reached ∙ ap viewer_if e)
      ]

  pub handle_message-Steps :
      (conn : Connection) (input : Bytes)
      → Follows (Steps os m) (handle_message double os m p first conn input)
  handle_message-Steps =
      handle_message-Follows double os m p first (Steps os m) Steps-Covers handle_media_status-Steps
        note_app-Steps
