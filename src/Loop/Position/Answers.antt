-- ===== src/Loop/Position/Answers.antt =====
-- What `secondsUntilNextSegment` and `currentSegmentEnd` of loop.h answer.
use sponsoryeet.Prelude.{
  ◌≡◌, ◌⊎◌, inl, inr, sym, subst, true, false, List, [], ◌∷◌, pos, Bool-cases, ltb_ℤ, All, arith,
}
use sponsoryeet.State.{Double, IsDouble, Segment, Os, Machine}
use sponsoryeet.Loop.Position.{
  minus_one, nought, lowest_begin, active_end, seconds_from, segment_end_at, current_position,
  seconds_until_next_segment, current_segment_end,
}
use sponsoryeet.Loop.Position.Segments.{
  Any, Ended, BeginsAt, NotBefore, lowest_begin-Finds, EndsFirst, active_end-EndsFirst,
}

module _ {D : Type 0} (double : Double D) where
  open double use {lt, sub, to_int, ceil, largest}

  -- What an answer of `secondsUntilNextSegment` is, for a position and the segments.
  abbrev pub NextSegment : D → List (Segment D) → D → Type 0
  NextSegment position ss answer =
      ((lt position (nought double) ≡ true) × (answer ≡ minus_one double))
      ⊎ ((lt position (nought double) ≡ false)
          × All (Ended double position) ss
          × (answer ≡ minus_one double))
      ⊎ ((low : D) × (lt position (nought double) ≡ false)
          × (answer ≡ sub low position)
          × Any (BeginsAt double position low) ss
          × All (NotBefore double position low) ss)

  seconds_from-NextSegment :
      IsDouble double
      → (position : D) (ss : List (Segment D))
      → NextSegment position ss (seconds_from double position ss)
  unfolding seconds_from
  seconds_from-NextSegment laws position ss = elim (Bool-cases (lt position (nought double))) [
    | inl e ↦ inl (e, ground arith)
    | inr e ↦ elim (lowest_begin-Finds double laws position ss largest) [
      | inl (f, all) ↦ inr (inl (e, all, ground arith))
      | inr (f, any, all) ↦ inr (inr (_, e, found ss e f _ any, any, all))
    ]
  ]
    where
      found :
          (ts : List (Segment D))
          → lt position (nought double) ≡ false
          → (lowest_begin double position ts largest false).1 ≡ true
          → (low : D) → Any (BeginsAt double position low) ts
          → seconds_from double position ts
            ≡ sub (lowest_begin double position ts largest false).0 position
      found [] e f low any = absurd any
      found (t ∷ ts) e f low any = rw (e, f)

  -- What an answer of `currentSegmentEnd` is, for a position and the segments.
  abbrev pub CurrentSegment : D → List (Segment D) → D → Type 0
  CurrentSegment position ss answer =
      let current = to_int (ceil position) in
      ((ltb_ℤ current (pos 0) ≡ true) × (answer ≡ minus_one double))
      ⊎ ((ltb_ℤ current (pos 0) ≡ false) × EndsFirst double current ss answer)

  pub segment_end_at-CurrentSegment :
      (position : D) (ss : List (Segment D))
      → CurrentSegment position ss (segment_end_at double position ss)
  segment_end_at-CurrentSegment position [] =
      elim (Bool-cases (ltb_ℤ (to_int (ceil position)) (pos 0))) [
        | inl e ↦ inl (e, unfold segment_end_at in ground arith)
        | inr e ↦ inr (e, inr (tt, unfold segment_end_at in ground arith))
      ]
  segment_end_at-CurrentSegment position (s ∷ ss) =
      elim (Bool-cases (ltb_ℤ (to_int (ceil position)) (pos 0))) [
        | inl e ↦ inl (e, unfold segment_end_at in ground arith)
        | inr e ↦
            let plays : segment_end_at double position (s ∷ ss)
                ≡ active_end double (to_int (ceil position)) (s ∷ ss) =
              unfold segment_end_at in ground arith in
            inr (
              e,
              subst (EndsFirst double (to_int (ceil position)) (s ∷ ss)) (sym plays)
                  (active_end-EndsFirst double (to_int (ceil position)) (s ∷ ss)),
            )
      ]

  module _ {W : Type 0} (os : Os W) where
    pub current_position-globals :
        (s : Machine D W) → (current_position double os s).1.globals ≡ s.globals
    unfolding current_position
    current_position-globals s = ground arith

    -- Asking for the next segment changes no variable. Without a position that is not negative the
    -- answer is -1. With one the answer is -1 if every segment is over, and else the time from the
    -- position to the begin of a segment that is not over, such that no other such one begins earlier.
    pub seconds_until_next_segment_lem :
        IsDouble double
        → (s : Machine D W)
        → let (answer, after) = seconds_until_next_segment double os s in
          (after.globals ≡ s.globals)
          × NextSegment (current_position double os s).0 s.globals.current_segments answer
    unfolding seconds_until_next_segment
    seconds_until_next_segment_lem laws s =
        let same = current_position-globals s in
        (same, rw same (seconds_from-NextSegment laws _ s.globals.current_segments))

    -- Asking for the end of the current segment changes no variable. The answer is -1 if the position,
    -- rounded up, is negative, and else the end of the first segment in the list that plays then: its
    -- end in whole seconds is later and its begin is earlier. It is -1 if no segment plays.
    pub current_segment_end_lem :
        (s : Machine D W)
        → let (answer, after) = current_segment_end double os s in
          (after.globals ≡ s.globals)
          × CurrentSegment (current_position double os s).0 s.globals.current_segments answer
    unfolding current_segment_end
    current_segment_end_lem s =
        let same = current_position-globals s in
        (same, rw same (segment_end_at-CurrentSegment _ s.globals.current_segments))
