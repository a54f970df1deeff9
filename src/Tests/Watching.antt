-- ===== src/Tests/Watching.antt =====
-- What is watched, at concrete videos.
use sponsoryeet.Prelude.{ℕ, ◌≡◌, ◌⊎◌, inr, refl, [], ◌∷◌, ℤ, pos, codes, true}
use sponsoryeet.State.{Os, Matcher}
use sponsoryeet.Sponsor.{download_segments, split_to_double}
use sponsoryeet.Connection.{open_connection, connect, close_connection, read, write}
use sponsoryeet.Connection.Download.{download_file, body_of, request_text}
use sponsoryeet.Chromecast.{seek}
use sponsoryeet.Loop.Position.{current_position}
use sponsoryeet.Loop.Seek.{seeking, maybe_seek}
use sponsoryeet.Loop.Serve.Options.{options}
use sponsoryeet.Loop.Watch.{Viewer, viewer, Moves, stays, moves, plays, Downloaded, Belongs}
use sponsoryeet.Loop.Watch.Seeks.{PlaysUntil, maybe_seek-belongs}
use sponsoryeet.Program.{run}
use sponsoryeet.Program.Watched.{run-Belongs}
use sponsoryeet.Program.Unchanged.{run-options}
use sponsoryeet.Tests.Toy.{World, seconds, seconds-IsDouble, system, plain}
use sponsoryeet.Tests.Messages.{conn, machine}
use sponsoryeet.Tests.Discovery.{network}
use sponsoryeet.Tests.Interrupted.{numbers}
use sponsoryeet.Tests.Kept.{byte_reader}
use sponsoryeet.Tests.Terminal.{terminal, few}

-- The server answers with a body, in which two segments are found.
abbrev server : Os World
server = record system { ssl_read = λ n size w. ((pos 5, 13 ∷ 10 ∷ 13 ∷ 10 ∷ b'{' ∷ []), w) }

abbrev two_segments : Matcher ℤ World
two_segments = record byte_reader {
  regex_search_all = λ pattern text. ([] ∷ (10 ∷ 20 ∷ []) ∷ []) ∷ ([] ∷ (5 ∷ 15 ∷ []) ∷ []) ∷ [];
}

abbrev before_video : Viewer ℤ
before_video = record {
  categories = [];
  watched = record { youtube = true; video = []; segments = [] };
}

segments_found :
    (download_segments server two_segments (codes "abc") machine).0
    ≡ machine.globals.current_segments
unfolding download_segments download_file open_connection connect write read close_connection
    body_of request_text split_to_double
segments_found = refl

video_playing : Moves server two_segments before_video (viewer machine.globals)
video_playing = moves stays (
    plays (codes "abc") machine.globals.current_segments refl refl refl
      (machine, refl, segments_found) refl)

maybe_seek-belongs_example :
    let after = (maybe_seek seconds server plain true conn machine).1 in
    (after.globals ≡ machine.globals)
    ⊎ ((end : ℤ) × (now : ℕ) × (w : World) × Downloaded server two_segments []
          (codes "abc")
          machine.globals.current_segments
        × PlaysUntil seconds server two_segments plain true seconds-IsDouble
            (current_position seconds server machine).0
            end
            machine.globals.current_segments
        × (after
            ≡ (seek seconds server plain true conn end
                (record { globals = seeking seconds now machine.globals; world = w })).1))
maybe_seek-belongs_example =
    maybe_seek-belongs seconds server two_segments plain true seconds-IsDouble before_video conn
      machine refl video_playing

run-Belongs_example : Belongs server two_segments (
    viewer
      (run seconds server two_segments plain network numbers terminal true few machine).1.globals)
run-Belongs_example =
    run-Belongs seconds server two_segments plain network numbers terminal true few machine
      (inr (machine, refl, segments_found))

run-options_example :
    options
      (run seconds server two_segments plain network numbers terminal true few machine).1.globals
    ≡ options machine.globals
run-options_example =
    run-options seconds server two_segments plain network numbers terminal true few machine
