-- ===== src/Loop/Watch.antt =====
-- What the program takes to be watched, as a machine of its own: which application runs, which video,
-- and the segments that are kept for it. The steps are those of handleMessage of loop.h and of the
-- reset in main.cc.
pub mod Handled
pub mod Served
pub mod Seeks
use sponsoryeet.Prelude.{
  ◌≡◌, refl, sym, subst, ◌⊎◌, inl, inr, Bool, true, false, List, [], Bytes, bytes_eq, is_empty,
}
use sponsoryeet.State.{Globals, Segment, Os, Matcher, Machine}
use sponsoryeet.Sponsor.{download_segments}
use sponsoryeet.Loop.Handle.Kept.{Watched, watched}

-- The categories of the user, and what is watched.
pub record Viewer (D : Type 0) : Type 0 where
  pub categories : List Bytes
  pub watched : Watched D

abbrev pub viewer : {D : Type 0} → Globals D → Viewer D
viewer g = record { categories = g.categories; watched = watched g }

module _ {D W : Type 0} (os : Os W) (m : Matcher D W) where
  -- `segments` is what a download for the video brings, in some state, with these categories.
  abbrev pub Downloaded : List Bytes → Bytes → List (Segment D) → Type 0
  Downloaded categories video segments =
      (s : Machine D W) × (s.globals.categories ≡ categories)
      × ((download_segments os m video s).0 ≡ segments)

  -- An application is named, a video other than the last plays, or the connection is lost. The categories stay.
  pub data Move (v w : Viewer D) : Type 0 where
    application :
        (playing : Bool)
        → w ≡ record v { watched = record v.watched { youtube = playing } }
        → Move v w
    plays :
        (video : Bytes) (segments : List (Segment D))
        → v.watched.youtube ≡ true
        → is_empty video ≡ false
        → bytes_eq video v.watched.video ≡ false
        → Downloaded v.categories video segments
        → w ≡ record v { watched = record { youtube = true; video = video; segments = segments } }
        → Move v w
    lost : w ≡ record v { watched = record v.watched { video = [] } } → Move v w

  pub data Moves (v : Viewer D) : Viewer D → Type 0 where
    stays : Moves v v
    moves : {u w : Viewer D} → Moves v u → Move u w → Moves v w

  pub Moves-trans : {u v w : Viewer D} → Moves u v → Moves v w → Moves u w
  Moves-trans r stays = r
  Moves-trans r (moves t move) = moves (Moves-trans r t) move

  -- The steps between two states of the variables.
  abbrev pub Steps : Globals D → Globals D → Type 0
  Steps g h = Moves (viewer g) (viewer h)

  pub still : (g h : Globals D) → viewer h ≡ viewer g → Steps g h
  still g h e = subst (Moves (viewer g)) (sym e) stays

  -- The segments are those of the video, if there is one.
  abbrev pub Belongs : Viewer D → Type 0
  Belongs v = (v.watched.video ≡ []) ⊎ Downloaded v.categories v.watched.video v.watched.segments

  Move-Belongs : {v w : Viewer D} → Move v w → Belongs v → Belongs w
  Move-Belongs (application playing e) b = rw e b
  Move-Belongs (plays video segments playing named new brought e) b = rw e (inr brought)
  Move-Belongs (lost e) b = rw e (inl refl)

  pub Moves-Belongs : {v w : Viewer D} → Moves v w → Belongs v → Belongs w
  Moves-Belongs stays b = b
  Moves-Belongs (moves t move) b = Move-Belongs move (Moves-Belongs t b)
