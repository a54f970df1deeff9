-- ===== src/State/Follows.antt =====
-- Actions that change the program's variables in a given way.
use sponsoryeet.Prelude.{◌≡◌, Bool, true, false, if◌then◌else◌}
use sponsoryeet.State.{Globals, Machine, Action}

-- A way to change the variables: two changes in a row are one, and a change of nothing that the view
-- shows is one.
pub record Covers {D V : Type 0} (view : Globals D → V) (R : Globals D → Globals D → Type 0)
    : Type 0 where
  pub quiet : (g h : Globals D) → view h ≡ view g → R g h
  pub follow : (g h k : Globals D) → R g h → R h k → R g k

module _ {D W : Type 0} (R : Globals D → Globals D → Type 0) where
  abbrev pub Follows : {A : Type 0} → Action D W A → Type 0
  Follows x = (s : Machine D W) → R s.globals (x s).1.globals

  pub choose-Follows :
      {A : Type 0} (b : Bool) (x y : Action D W A)
      → Follows x
      → Follows y
      → Follows (if b then x else y)
  choose-Follows true x y h k = h
  choose-Follows false x y h k = k
