-- ===== src/State/View.antt =====
-- Actions that leave a part of the program's variables alone.
use sponsoryeet.Prelude.{◌≡◌, Bool, true, false, if◌then◌else◌}
use sponsoryeet.State.{Globals, Machine, Action}

module _ {D W V : Type 0} (view : Globals D → V) where
  abbrev pub KeepsView : {A : Type 0} → Action D W A → Type 0
  KeepsView x = (s : Machine D W) → view (x s).1.globals ≡ view s.globals

  pub choose-KeepsView :
      {A : Type 0} (b : Bool) (x y : Action D W A)
      → KeepsView x
      → KeepsView y
      → KeepsView (if b then x else y)
  choose-KeepsView true x y h k = h
  choose-KeepsView false x y h k = k
