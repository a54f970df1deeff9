-- ===== src/Loop/Watch/Seeks.antt =====
-- By whose segments maybeSeek of loop.h seeks.
use sponsoryeet.Prelude.{ℕ, ◌≡◌, ◌⊎◌, ap, inl, inr, ◌∷◌, ◌++◌, Bool, false, List, []}
use sponsoryeet.Cast.Protobuf.{Protobuf}
use sponsoryeet.Cast.Message.{CastMessage}
use sponsoryeet.State.{Double, IsDouble, Segment, Os, Matcher, Machine}
use sponsoryeet.Connection.{Connection}
use sponsoryeet.Chromecast.{seek}
use sponsoryeet.Loop.Position.{nought, current_position, segment_end_at}
use sponsoryeet.Loop.Position.Segments.{IsActive}
use sponsoryeet.Loop.Position.Answers.{CurrentSegment, segment_end_at-CurrentSegment}
use sponsoryeet.Loop.Seek.{seeking, maybe_seek}
use sponsoryeet.Loop.Seek.Clock.{clock_read}
use sponsoryeet.Loop.Seek.Once.{maybe_seek-Sought}
use sponsoryeet.Loop.Watch.{Viewer, viewer, Moves, Moves-Belongs, Downloaded}

module _ {D W : Type 0} (double : Double D) (os : Os W) (m : Matcher D W) (p : Protobuf CastMessage)
    (first : Bool) (laws : IsDouble double) where
  -- A segment of the list plays at the position, and ends at `end`.
  abbrev pub PlaysUntil : D → D → List (Segment D) → Type 0
  PlaysUntil position end segments =
      (before : List (Segment D)) × (playing : Segment D) × (after : List (Segment D)) × (segments
        ≡ before ++ playing ∷ after)
      × IsActive double (double.to_int (double.ceil position)) playing
      × (end ≡ playing.end)

  plays_until :
      (position : D) (segments : List (Segment D)) (end : D)
      → double.lt end (nought double) ≡ false
      → CurrentSegment double position segments end
      → PlaysUntil position end segments
  plays_until position segments end ahead (inl (early, e)) =
      absurd (cc (ahead, ap (λ x. double.lt x (nought double)) e, laws.minus_one_lt))
  plays_until position segments end ahead
        (inr (late, inl (before, s, after, split, idle, active, e))) =
      (before, s, after, split, active, e)
  plays_until position segments end ahead (inr (late, inr (idle, e))) =
      absurd (cc (ahead, ap (λ x. double.lt x (nought double)) e, laws.minus_one_lt))

  -- Whatever moves have led from a start with no video to the variables at hand, a call of `maybeSeek`
  -- leaves them alone, or it seeks to the end of a segment that plays, out of what a download brought
  -- for the current video with the categories of the user: never by the segments of another video.
  pub maybe_seek-belongs :
      (start : Viewer D) (conn : Connection) (s : Machine D W)
      → start.watched.video ≡ []
      → Moves os m start (viewer s.globals)
      → let after = (maybe_seek double os p first conn s).1 in
        (after.globals ≡ s.globals)
        ⊎ ((end : D) × (now : ℕ) × (w : W) × Downloaded os m s.globals.categories
              s.globals.current_video s.globals.current_segments
            × PlaysUntil (current_position double os s).0 end s.globals.current_segments
            × (after
                ≡ (seek double os p first conn end
                    (record { globals = seeking double now s.globals; world = w })).1))
  maybe_seek-belongs start conn s none_yet reached =
      let clock = clock_read double os p first s in
      elim ((maybe_seek-Sought double os p first conn s).1) [
        | inl (why, same) ↦ inl same
        | inr (video, ahead, playing, due, e) ↦ elim (Moves-Belongs os m reached (inl none_yet)) [
          | inl nothing ↦ absurd (cc (video, nothing))
          | inr brought ↦ inr (
            segment_end_at double (current_position double os s).0 s.globals.current_segments,
            (os.time (os.time clock).1).0,
            (os.time (os.time clock).1).1,
            brought,
            plays_until (current_position double os s).0 s.globals.current_segments _ ahead (
                segment_end_at-CurrentSegment double (current_position double os s).0
                  s.globals.current_segments),
            e,
          )
        ]
      ]
