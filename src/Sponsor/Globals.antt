-- ===== src/Sponsor/Globals.antt =====
-- The download of segments changes no variable of the program.
use sponsoryeet.Prelude.{◌≡◌, refl, Bytes}
use sponsoryeet.State.{Os, Matcher, Machine}
use sponsoryeet.Connection.Download.Globals.{download_file-globals}
use sponsoryeet.Sponsor.{download_segments}
use sponsoryeet.Sponsor.Kept.{download_segments-Keeps}

pub download_segments-globals :
    {D W : Type 0} (os : Os W) (m : Matcher D W) (video_id : Bytes) (s : Machine D W)
    → (download_segments os m video_id s).1.globals ≡ s.globals
download_segments-globals os m =
    download_segments-Keeps os m (λ s. s.globals) (λ text s. refl) (λ s. refl)
      (download_file-globals os)
