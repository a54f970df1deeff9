-- ===== src/Loop/Progress/Width.antt =====
-- The width of what `printProgress` of loop.h draws.
use sponsoryeet.Prelude.{
  ℕ, zero, suc, ◌+◌, ◌≡◌, refl, ap, ◌∙◌, Bool, ◌∷◌, ◌++◌, if◌then◌else◌, length, length-append,
  replicate, ℤ, pos, negsuc, pos_part, neg_part, ltb_ℤ, ◌-ℤ◌, arith,
}
use sponsoryeet.State.{Double}
use sponsoryeet.Loop.Progress.{progress_width, played, bar}

length-replicate : (n : ℕ) (c : ℕ) → length (replicate n c) ≡ n
length-replicate zero c = refl
length-replicate (suc n) c = ap suc (length-replicate n c)

bar_width :
    (full : ℤ)
    → let part = if ltb_ℤ (pos progress_width) full then pos progress_width else full in
      pos_part part + suc (pos_part (pos progress_width -ℤ part)) ≡ 41 + neg_part full
bar_width (pos n) = ground arith
bar_width (negsuc n) = ground arith

-- `filled`, one sign, and what is left.
length-parts :
    (a lead b left right : ℕ) → length (replicate a left ++ lead ∷ replicate b right) ≡ a + suc b
length-parts a lead b left right =
    length-append (replicate a left) (lead ∷ replicate b right)
    ∙ (omega (arith, length-replicate a left, length-replicate b right))

module _ {D : Type 0} (double : Double D) where
  -- The bar is 41 characters wide whatever the position and the length are, unless the played part
  -- comes out below zero: then it is wider by as many characters as that is below zero.
  pub length-bar :
      (playing : Bool) (position total : D)
      → length (bar double playing position total) ≡ 41 + neg_part (played double position total)
  unfolding bar
  length-bar playing position total =
      let full = played double position total in
      length-parts _ (if playing then b'>' else b'|') _ b'=' b'-' ∙ bar_width full
