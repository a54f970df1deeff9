-- ===== src/Loop/Handle/Video.antt =====
-- Which video `handleMessage` of loop.h takes to be played, and the segments that it keeps for it.
use mathlib.Core.Path.{ap₂}
use sponsoryeet.Prelude.{
  ◌≡◌, refl, sym, ap, ◌∙◌, Bool, true, not, ◌&&◌, Bool-cases, inl, inr, if◌then◌else◌, Bytes,
  bytes_eq, is_empty,
}
use sponsoryeet.Cast.Protobuf.{Protobuf}
use sponsoryeet.Cast.Message.{CastMessage}
use sponsoryeet.State.{Double, Globals, Os, Matcher, Machine}
use sponsoryeet.Connection.{Connection}
use sponsoryeet.Extract.{regex_extract}
use sponsoryeet.Sponsor.{download_segments}
use sponsoryeet.Sponsor.Globals.{download_segments-globals}
use sponsoryeet.Loop.Handle.Kept.{
  Kept, Watched, kept, watched, update_numbers-Keeps, update_session-Keeps, schedule-Keeps,
  skip_ad-Keeps,
}
use sponsoryeet.Loop.Handle.{
  update_numbers, update_session, update_video, schedule, skip_ad, handle_media_status, video_regex,
}

-- Whether this is the name of a video that is not yet the current one.
abbrev pub is_new : {D : Type 0} → Bytes → Globals D → Bool
is_new video_id g = not (is_empty video_id) && not (bytes_eq video_id g.current_video)

module _ {D W : Type 0} (double : Double D) (os : Os W) (m : Matcher D W) (p : Protobuf CastMessage)
    (first : Bool) where
  -- Where a status message finds the variables before its video is looked at.
  abbrev pub noted : Bytes → Machine D W → Machine D W
  noted payload s =
      (update_session double os m p first payload
        (update_numbers double os m p first payload s).1).1

  abbrev with_youtube : Watched D → Bool → Watched D
  with_youtube w playing = record w { youtube = playing }

  abbrev of_kept : Kept D → Watched D
  of_kept k = k.watched

  pub noted-kept :
      (payload : Bytes) (s : Machine D W) → kept (noted payload s).globals ≡ kept s.globals
  noted-kept payload s =
      update_session-Keeps double os m p first payload
        (update_numbers double os m p first payload s).1
      ∙ update_numbers-Keeps double os m p first payload s

  update_video-watched :
      (payload : Bytes) (s : Machine D W)
      → let video_id = regex_extract os m video_regex payload in
        watched (update_video double os m p first payload s).1.globals ≡ (
          if is_new video_id s.globals
          then record {
            youtube = s.globals.youtube;
            video = video_id;
            segments = (download_segments os m video_id s).0;
          }
          else watched s.globals)
  unfolding update_video
  update_video-watched payload s =
      let video_id = regex_extract os m video_regex payload in
      let same = ap (λ (g : Globals D). g.youtube) (download_segments-globals os m video_id s) in
      elim (Bool-cases (is_new video_id s.globals)) [
        | inl e ↦ rw e (
            ap
              (λ y. record {
                youtube = y;
                video = video_id;
                segments = (download_segments os m video_id s).0;
              })
              same)
        | inr e ↦ rw e refl
      ]

  -- A media status sets the current video and its segments exactly if YouTube plays and the message
  -- names a video that is not the current one: then to that video and what is downloaded for it.
  -- Else both stay, whatever is sought, skipped or sent on the way.
  pub handle_media_status-watched :
      (conn : Connection) (payload : Bytes) (s : Machine D W)
      → let video_id = regex_extract os m video_regex payload in
        watched (handle_media_status double os m p first conn payload s).1.globals ≡ (
          if s.globals.youtube && is_new video_id s.globals
          then record {
            youtube = true;
            video = video_id;
            segments = (download_segments os m video_id (noted payload s)).0;
          }
          else watched s.globals)
  unfolding handle_media_status
  handle_media_status-watched conn payload s =
      let video_id = regex_extract os m video_regex payload in
      let s₂ = noted payload s in
      let s₃ = (update_video double os m p first payload s₂).1 in
      let s₄ = (schedule double os m p first conn s₃).1 in
      let same = ap of_kept (noted-kept payload s) in
      let playing = ap (λ (w : Watched D). w.youtube) same in
      let new =
        ap (λ (w : Watched D). not (is_empty video_id) && not (bytes_eq video_id w.video)) same in
      let later =
        ap of_kept (skip_ad-Keeps double os m p first conn payload s₄)
        ∙ ap of_kept (schedule-Keeps double os m p first conn s₃)
        ∙ update_video-watched payload s₂ in
      let named : Watched D = record {
        youtube = true;
        video = video_id;
        segments = (download_segments os m video_id s₂).0;
      } in
      let chosen = λ (b : Bool). if b then named else watched s.globals in
      elim (Bool-cases s.globals.youtube) [
        | inl y ↦
            let reached : watched (handle_media_status double os m p first conn payload s).1.globals
                ≡ watched (skip_ad double os m p first conn payload s₄).1.globals =
              simp (playing ∙ y) in
            elim (Bool-cases (is_new video_id s.globals)) [
              | inl e ↦
                  reached
                  ∙ (rw (new ∙ e) at later)
                  ∙ ap (with_youtube named) (playing ∙ y)
                  ∙ sym (ap chosen (ap₂ ◌&&◌ y e))
              | inr e ↦ reached ∙ (rw (new ∙ e) at later) ∙ same ∙ sym (ap chosen (ap₂ ◌&&◌ y e))
            ]
        | inr y ↦
            let reached : watched (handle_media_status double os m p first conn payload s).1.globals
                ≡ watched s₂.globals =
              simp (playing ∙ y) in
            reached ∙ same ∙ sym (ap (λ b. chosen (b && is_new video_id s.globals)) y)
      ]
