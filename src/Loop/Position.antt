-- ===== src/Loop/Position.antt =====
-- The queries of loop.h on the play position: `currentPosition`, `secondsUntilNextSegment` and
-- `currentSegmentEnd`.
pub mod Segments
pub mod Answers
use sponsoryeet.Prelude.{
  ℕ, Bool, true, false, not, ◌&&◌, ◌||◌, List, [], ◌∷◌, if◌then◌else◌, ℤ, pos, negsuc, leb_ℤ, ltb_ℤ,
  is_empty,
}
use sponsoryeet.State.{Double, Segment, Globals, Os, Machine, Action, ◌>>=◌, return, get, call}

abbrev pub no_segments : {D : Type 0} → List (Segment D) → Bool
no_segments [] = true
no_segments (s ∷ ss) = false

module _ {D : Type 0} (double : Double D) where
  open double use {lt, add, sub, round, ceil, of_int, to_int, largest}

  -- The constants 0 and -1.
  abbrev pub nought : D
  nought = of_int (pos 0)

  abbrev pub minus_one : D
  minus_one = of_int (negsuc 0)

  -- The loop of `secondsUntilNextSegment`, over `lowestBegin` and `found`.
  unfoldable pub lowest_begin : D → List (Segment D) → D → Bool → D × Bool
  lowest_begin current [] lowest found = (lowest, found)
  lowest_begin current (s ∷ ss) lowest found =
      let better = not (lt s.end current) && (not found || lt s.begin lowest) in
      lowest_begin current ss (if better then s.begin else lowest) (if better then true else found)

  -- The loop of `currentSegmentEnd`.
  unfoldable pub active_end : ℤ → List (Segment D) → D
  active_end current [] = minus_one
  active_end current (s ∷ ss) =
      let rest = active_end current ss in
      if leb_ℤ (to_int s.end) current
      then rest
      else if lt s.begin (of_int current)
      then s.end
      else rest

  -- `secondsUntilNextSegment` behind its call of `currentPosition`.
  unfoldable pub seconds_from : D → List (Segment D) → D
  seconds_from current ss =
      let (lowest, found) = lowest_begin current ss largest false in
      if lt current nought
      then minus_one
      else if no_segments ss
      then minus_one
      else if not found
      then minus_one
      else sub lowest current

  -- `currentSegmentEnd` behind its call of `currentPosition`.
  unfoldable pub segment_end_at : D → List (Segment D) → D
  segment_end_at position ss =
      let current = to_int (ceil position) in
      if ltb_ℤ current (pos 0)
      then minus_one
      else if no_segments ss
      then minus_one
      else active_end current ss

  module _ {W : Type 0} (os : Os W) where
    unfoldable pub current_position : Action D W D
    current_position = do
      g ← get
      if not g.currently_playing
          then return g.current_position
          else if lt g.current_position nought
          then return minus_one
          else (do
            now ← call os.time
            return
                (round (add (sub (of_int (pos now)) g.last_position_fetched) g.current_position)))

    unfoldable pub seconds_until_next_segment : Action D W D
    seconds_until_next_segment = do
      current ← current_position
      g ← get
      return (seconds_from current g.current_segments)

    unfoldable pub current_segment_end : Action D W D
    current_segment_end = do
      position ← current_position
      g ← get
      return (segment_end_at position g.current_segments)
