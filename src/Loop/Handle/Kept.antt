-- ===== src/Loop/Handle/Kept.antt =====
-- What the parts of `handleMessage` of loop.h leave alone that serve every media status.
use sponsoryeet.Prelude.{
  ℕ, refl, ap, ◌∙◌, Bool, ◌&&◌, Bool-cases, inl, inr, Option, none, some, List, Bytes, codes,
  bytes_eq, is_empty, arith,
}
use sponsoryeet.Cast.Protobuf.{Protobuf}
use sponsoryeet.Cast.Message.{CastMessage}
use sponsoryeet.State.{Double, Globals, Segment, Os, Matcher, Machine, Action}
use sponsoryeet.State.View.{KeepsView}
use sponsoryeet.Connection.{Connection}
use sponsoryeet.Extract.{regex_extract, extract_number, convert}
use sponsoryeet.Chromecast.{send_simple_media}
use sponsoryeet.Chromecast.Effects.{seek-globals, send_simple_media-globals, load_media-globals}
use sponsoryeet.Loop.Position.{
  no_segments, nought, segment_end_at, current_position, seconds_until_next_segment,
}
use sponsoryeet.Loop.Position.Answers.{current_position-globals}
use sponsoryeet.Loop.Seek.{seeking, maybe_seek}
use sponsoryeet.Loop.Seek.Clock.{clock_read}
use sponsoryeet.Loop.Seek.Once.{maybe_seek-Sought}
use sponsoryeet.Loop.Handle.{
  note_duration, note_position, update_numbers, update_session, schedule, skip_ad, duration_regex,
  time_regex, custom_state_regex,
}

-- What the user has chosen, whether the program still runs, and the time of the last sign of life.
pub record Settings : Type 0 where
  pub running : Bool
  pub verbose : Bool
  pub adblock : Bool
  pub categories : List Bytes
  pub last_ping : ℕ

abbrev pub settings : {D : Type 0} → Globals D → Settings
settings g = record {
  running = g.running;
  verbose = g.verbose;
  adblock = g.adblock;
  categories = g.categories;
  last_ping = g.last_ping;
}

-- The video and its segments, and whether they are of interest.
pub record Watched (D : Type 0) : Type 0 where
  pub youtube : Bool
  pub video : Bytes
  pub segments : List (Segment D)

abbrev pub watched : {D : Type 0} → Globals D → Watched D
watched g = record { youtube = g.youtube; video = g.current_video; segments = g.current_segments }

-- Both of these.
pub record Kept (D : Type 0) : Type 0 where
  pub settings : Settings
  pub watched : Watched D

abbrev pub kept : {D : Type 0} → Globals D → Kept D
kept g = record { settings = settings g; watched = watched g }

module _ {D W : Type 0} (double : Double D) (os : Os W) (m : Matcher D W) (p : Protobuf CastMessage)
    (first : Bool) where
  -- An action that leaves them alone.
  abbrev Keeps : {A : Type 0} → Action D W A → Type 0
  Keeps = KeepsView kept

  convert-Keeps : (text : Bytes) → Keeps (convert os m text)
  unfolding convert
  convert-Keeps text s = ground arith

  extract_number-Keeps : (regex payload : Bytes) → Keeps (extract_number os m regex payload)
  unfolding extract_number
  extract_number-Keeps regex payload s =
      elim (Bool-cases (is_empty (regex_extract os m regex payload))) [
        | inl e ↦ rw e refl
        | inr e ↦ rw e (convert-Keeps (regex_extract os m regex payload) s)
      ]

  note_duration-Keeps : (duration : Option D) → Keeps (note_duration double os m p first duration)
  unfolding note_duration
  note_duration-Keeps none s = refl
  note_duration-Keeps (some d) s = refl

  note_position-Keeps : (position : Option D) → Keeps (note_position double os m p first position)
  unfolding note_position
  note_position-Keeps none s = refl
  note_position-Keeps (some d) s = refl

  pub update_numbers-Keeps : (payload : Bytes) → Keeps (update_numbers double os m p first payload)
  unfolding update_numbers
  update_numbers-Keeps payload s =
      let (duration, s₁) = extract_number os m duration_regex payload s in
      let s₂ = (note_duration double os m p first duration s₁).1 in
      let (position, s₃) = extract_number os m time_regex payload s₂ in
      note_position-Keeps position s₃
      ∙ extract_number-Keeps time_regex payload s₂
      ∙ note_duration-Keeps duration s₁
      ∙ extract_number-Keeps duration_regex payload s

  pub update_session-Keeps : (payload : Bytes) → Keeps (update_session double os m p first payload)
  unfolding update_session
  update_session-Keeps payload s = ground arith

  maybe_seek-Keeps : (conn : Connection) → Keeps (maybe_seek double os p first conn)
  maybe_seek-Keeps conn s = elim ((maybe_seek-Sought double os p first conn s).1) [
    | inl (why, same) ↦ ap kept same
    | inr (video, ahead, playing, late, e) ↦
        let end =
          segment_end_at double (current_position double os s).0 s.globals.current_segments in
        let clock = clock_read double os p first s in
        let sought : Machine D W = record {
          globals = seeking double (os.time (os.time clock).1).0 s.globals;
          world = (os.time (os.time clock).1).1;
        } in
        ap (λ (t : Machine D W). kept t.globals) e
        ∙ ap kept (seek-globals double os p first conn end sought)
  ]

  pub schedule-Keeps : (conn : Connection) → Keeps (schedule double os m p first conn)
  unfolding schedule seconds_until_next_segment
  schedule-Keeps conn s =
      let (delta, s₁) = seconds_until_next_segment double os s in
      let same = ap kept (current_position-globals double os s) in
      elim (Bool-cases (no_segments s.globals.current_segments)) [
        | inl e ↦ rw e refl
        | inr e ↦ elim (Bool-cases (double.le (nought double) delta)) [
          | inl f ↦ rw (e, f) (maybe_seek-Keeps conn _ ∙ same)
          | inr f ↦ rw (e, f) (maybe_seek-Keeps conn s₁ ∙ same)
        ]
      ]

  pub skip_ad-Keeps :
      (conn : Connection) (payload : Bytes) → Keeps (skip_ad double os m p first conn payload)
  unfolding skip_ad
  skip_ad-Keeps conn payload s =
      let custom_state = regex_extract os m custom_state_regex payload in
      let (position, s₁) = current_position double os s in
      let s₂ = (send_simple_media double os p first conn (codes "STOP") s₁).1 in
      elim (Bool-cases (s.globals.adblock && bytes_eq custom_state (codes "1081"))) [
        | inl e ↦ rw e (
            ap kept (load_media-globals double os p first conn s₂.globals.current_video _ s₂)
            ∙ ap kept (send_simple_media-globals double os p first conn (codes "STOP") s₁)
            ∙ ap kept (current_position-globals double os s))
        | inr e ↦ rw e refl
      ]
