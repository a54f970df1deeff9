-- ===== src/Loop/Seek.antt =====
-- `maybeSeek` of loop.h.
pub mod Clock
pub mod Once
pub mod Told
pub mod Released
use sponsoryeet.Prelude.{
  ℕ, ◌+◌, Bool, true, false, not, ◌||◌, if◌then◌else◌, ltb, pos, negsuc, is_empty,
}
use sponsoryeet.Cast.Protobuf.{Protobuf}
use sponsoryeet.Cast.Message.{CastMessage}
use sponsoryeet.State.{Double, Globals, Os, Machine, Action, ◌>>=◌, ◌>>◌, return, get, modify, call}
use sponsoryeet.Connection.{Connection}
use sponsoryeet.Chromecast.{seek}
use sponsoryeet.Loop.Position.{
  no_segments, minus_one, nought, current_position, current_segment_end,
}

-- The variables that a seek forgets, and the time of the seek.
abbrev pub seeking : {D : Type 0} → Double D → ℕ → Globals D → Globals D
seeking double now g = record g {
  last_seek = now;
  current_position = minus_one double;
  next_segment_start = minus_one double;
  last_position_fetched = minus_one double;
}

module _ {D W : Type 0} (double : Double D) (os : Os W) (p : Protobuf CastMessage)
    (first : Bool) where
  -- Behind the guards: the time is read again.
  pub skip : Connection → D → Action D W (Unit {0})
  skip conn segment_end = do
    now ← call os.time
    modify (seeking double now)
    done ← seek double os p first conn segment_end
    return tt

  -- `time(nullptr) - s_lastSeek < 1` is a difference of signed numbers.
  pub skip_if_due : Connection → D → Action D W (Unit {0})
  skip_if_due conn segment_end = do
    g ← get
    if not g.currently_playing then return tt else (do
      now ← call os.time
      if ltb now (g.last_seek + 1) then return tt else skip conn segment_end)

  -- In verbose mode the position is computed once more, to be printed.
  pub print_segment : Action D W (Unit {0})
  print_segment = do
    g ← get
    if g.verbose then (do position ← current_position double os; return tt) else return tt

  pub seek_to : Connection → D → Action D W (Unit {0})
  seek_to conn segment_end =
      if double.lt segment_end (nought double)
      then return tt
      else (do print_segment; skip_if_due conn segment_end)

  unfoldable pub maybe_seek : Connection → Action D W (Unit {0})
  maybe_seek conn = do
    g ← get
    if is_empty g.current_video || no_segments g.current_segments
        then return tt
        else (do segment_end ← current_segment_end double os; seek_to conn segment_end)
