-- ===== src/Sponsor/Fuel.antt =====
-- The loop of `splitToDouble` of sponsor.h ends.
use sponsoryeet.Prelude.{
  ℕ, zero, suc, ◌<◌, ◌≤◌, ◌≡◌, ◌≢◌, refl, ap, Bool-cases, inl, inr, List, [], ◌∷◌, ◌++◌, ◌==◌, drop,
  length, length-drop, Bytes, arith,
}
use sponsoryeet.State.{Os, Matcher, Machine, ◌>>=◌, call}
use sponsoryeet.Sponsor.{spaced, split_loop, split_to_double}

-- `strtod` consumes no more bytes than there are.
abbrev pub StaysInside : {D W : Type 0} → Matcher D W → Type 0
StaysInside {W} m = (text : Bytes) (w : W) → (m.strtod text w).0.1 ≤ length text

length-spaced : (text : Bytes) → length (spaced text) ≡ length text
unfolding spaced
length-spaced [] = refl
length-spaced (c ∷ rest) = ap suc (length-spaced rest)

module _ {D W : Type 0} (os : Os W) (m : Matcher D W) (inside : StaysInside m) where
  split_loop-fuel :
      (fuel more : ℕ) (begin : Bytes) (ret : List D) (s : Machine D W)
      → length begin < fuel
      → length begin < more
      → split_loop os m fuel begin ret s ≡ split_loop os m more begin ret s
  unfolding split_loop
  split_loop-fuel zero more begin ret s h k = absurd (omega arith)
  split_loop-fuel (suc fuel) zero begin ret s h k = absurd (omega arith)
  split_loop-fuel (suc fuel) (suc more) begin ret s h k =
      let ((timestamp, used), after) = call (m.strtod begin) s in
      let rest = drop used begin in
      let size = length-drop used begin in
      elim (Bool-cases (used == 0)) [
        | inl e ↦ rw e refl
        | inr e ↦ elim (Bool-cases (os.errno after.world == m.erange)) [
          | inl f ↦ rw (e, ◌>>=◌, f) refl
          | inr f ↦
              let some_used : used ≢ 0 = ground arith in
              let fits = inside begin s.world in
              rw (e, ◌>>=◌, f)
                (split_loop-fuel fuel more rest (ret ++ timestamp ∷ []) after (omega arith)
                  (omega arith))
        ]
      ]

  -- If `strtod` consumes no more than the text, the loop of `splitToDouble` ends within as many rounds
  -- as the text has bytes and one: with any more the result is the same.
  pub split_to_double-fuel :
      (fuel : ℕ) (text : Bytes) (s : Machine D W)
      → length text < fuel
      → split_loop os m fuel (spaced text) [] s ≡ split_to_double os m text s
  unfolding split_to_double
  split_to_double-fuel fuel text s h =
      let size = length-spaced text in
      split_loop-fuel fuel (suc (length (spaced text))) (spaced text) [] s (omega arith)
        (omega arith)
