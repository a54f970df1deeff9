-- ===== src/State/World.antt =====
-- Actions that leave a part of the world alone.
use sponsoryeet.Prelude.{◌≡◌, Bool, true, false, if◌then◌else◌, Bytes}
use sponsoryeet.State.{Os, Matcher, Machine, Action}

module _ {D W V : Type 0} (view : W → V) where
  abbrev pub KeepsWorld : {A : Type 0} → Action D W A → Type 0
  KeepsWorld x = (s : Machine D W) → view (x s).1.world ≡ view s.world

  pub choose-KeepsWorld :
      {A : Type 0} (b : Bool) (x y : Action D W A)
      → KeepsWorld x
      → KeepsWorld y
      → KeepsWorld (if b then x else y)
  choose-KeepsWorld true x y h k = h
  choose-KeepsWorld false x y h k = k

-- The calls of `Os` and `Matcher` that are about nothing but the time, `errno` and a number in a text
-- leave the view alone.
pub record Spares {D W V : Type 0} (os : Os W) (m : Matcher D W) (view : W → V) : Type 0 where
  pub times : (w : W) → view (os.time w).1 ≡ view w
  pub converts : (text : Bytes) (w : W) → view (m.strtod text w).1 ≡ view w
  pub clears : (w : W) → view (m.clear_errno w).1 ≡ view w
