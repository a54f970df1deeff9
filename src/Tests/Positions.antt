-- ===== src/Tests/Positions.antt =====
-- Positions and seeks of loop.h at concrete inputs.
use sponsoryeet.Prelude.{◌≡◌, ◌⊎◌, refl, true, pos, negsuc}
use sponsoryeet.Loop.Position.{
  lowest_begin, active_end, seconds_from, segment_end_at, current_position,
  seconds_until_next_segment, current_segment_end,
}
use sponsoryeet.Loop.Position.Answers.{NextSegment, seconds_until_next_segment_lem}
use sponsoryeet.Loop.Seek.{maybe_seek}
use sponsoryeet.Loop.Seek.Once.{maybe_seek_once}
use sponsoryeet.Loop.Seek.Told.{Told}
use sponsoryeet.Tests.Toy.{seconds, seconds-IsDouble, system, plain}
use sponsoryeet.Tests.Messages.{conn, machine}

-- Second 12 plays both segments: the first in the list counts, and the earlier begin.
answers_at_twelve :
    ((current_segment_end seconds system machine).0 ≡ pos 20)
    × ((seconds_until_next_segment seconds system machine).0 ≡ negsuc 6)
unfolding current_segment_end seconds_until_next_segment segment_end_at seconds_from lowest_begin
    active_end current_position
answers_at_twelve = (refl, refl)

seconds_until_next_segment_lem_example :
    ((seconds_until_next_segment seconds system machine).1.globals ≡ machine.globals)
    × NextSegment seconds
        (current_position seconds system machine).0
        machine.globals.current_segments
        (seconds_until_next_segment seconds system machine).0
seconds_until_next_segment_lem_example =
    seconds_until_next_segment_lem seconds system seconds-IsDouble machine

maybe_seek_once_example :
    ((maybe_seek seconds system plain true conn machine).1.globals ≡ machine.globals)
    ⊎ (maybe_seek seconds system plain true conn
          (maybe_seek seconds system plain true conn machine).1
        ≡ (tt, (maybe_seek seconds system plain true conn machine).1))
maybe_seek_once_example = maybe_seek_once seconds system plain true seconds-IsDouble conn machine
