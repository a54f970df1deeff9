-- ===== src/Tests/Library.antt =====
-- A system that keeps account of what is in use, and a message that names a video.
use sponsoryeet.Prelude.{◌≡◌, refl, true, ◌&&◌, some, [], ◌∷◌, if◌then◌else◌, ℤ, pos, codes}
use sponsoryeet.State.Bag.{descriptor, ssl_context, ssl_handle, one, both, without, without-both}
use sponsoryeet.State.{Os, Matcher}
use sponsoryeet.Connection.Released.{Holds}
use sponsoryeet.Extract.{regex_extract}
use sponsoryeet.Sponsor.{download_segments}
use sponsoryeet.Loop.Handle.{handle_media_status, video_regex}
use sponsoryeet.Loop.Handle.Kept.{watched}
use sponsoryeet.Loop.Handle.Video.{noted, is_new, handle_media_status-watched}
use sponsoryeet.Tests.Toy.{World, seconds, system, plain}
use sponsoryeet.Tests.Messages.{conn, machine}

-- A system that keeps account of what is in use.
abbrev pub counting : Os World
counting = record system {
  ssl_ctx_new = λ p w. (2, record w { handles = both (one (ssl_context 2)) w.handles });
  ssl_new = λ p w. (3, record w { handles = both (one (ssl_handle 3)) w.handles });
  socket = λ w. (pos 4, record w { handles = both (one (descriptor (pos 4))) w.handles });
  ssl_ctx_free = λ p w. (tt, record w { handles = without (ssl_context p) w.handles });
  ssl_free = λ p w. (tt, record w { handles = without (ssl_handle p) w.handles });
  close = λ fd w. (tt, record w { handles = without (descriptor fd) w.handles });
}

pub counting-Holds : Holds counting (λ w. w.handles)
counting-Holds = record {
  method = λ w. refl;
  new_ctx = λ p w. refl;
  asserts = λ b w. refl;
  verify = λ p mode f w. refl;
  new_handle = λ p w. refl;
  free_ctx = λ p w n h. without-both (ssl_context p) w.handles n h;
  free_handle = λ p w n h. without-both (ssl_handle p) w.handles n h;
  new_socket = λ w. refl;
  not_stdin = λ w e. cc;
  close_socket = λ fd w n h. without-both (descriptor fd) w.handles n h;
  timeout = λ fd n w. refl;
  connects = λ fd a w. refl;
  sets_fd = λ p fd w. refl;
  shakes = λ p w. refl;
  writes = λ p text w. refl;
  reads = λ p n w. refl;
  resolves = λ name w. refl;
}

-- Every text names the video `xyz`.
abbrev names_video : Matcher ℤ World
names_video = record {
  regex_search = λ pattern text. some (text ∷ codes "xyz" ∷ []);
  regex_search_all = λ pattern text. [];
  strtod = λ text w. ((pos 5, 1), w);
  erange = 34;
  clear_errno = λ w. (tt, w);
  is_finite = λ d. true;
}

handle_media_status-watched_example :
    let video_id = regex_extract system names_video video_regex (codes "{}") in
    watched
      (handle_media_status seconds system names_video plain true conn
        (codes "{}")
        machine).1.globals
    ≡ (if true && is_new video_id machine.globals
        then record {
          youtube = true;
          video = video_id;
          segments =
              (download_segments system names_video video_id
                (noted seconds system names_video plain true (codes "{}") machine)).0;
        }
        else watched machine.globals)
handle_media_status-watched_example =
    handle_media_status-watched seconds system names_video plain true conn (codes "{}") machine
