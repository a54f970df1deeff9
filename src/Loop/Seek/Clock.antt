-- ===== src/Loop/Seek/Clock.antt =====
-- When `maybeSeek` of loop.h reads the clock.
use sponsoryeet.Prelude.{
  ℕ, zero, suc, ◌+◌, ◌≤◌, ◌≡◌, refl, ap, ◌∙◌, Bool, not, Bool-cases, inl, inr, arith,
}
use sponsoryeet.Cast.Protobuf.{Protobuf}
use sponsoryeet.Cast.Message.{CastMessage}
use sponsoryeet.State.{Double, Os, Machine}
use sponsoryeet.Loop.Position.{nought, current_position, current_segment_end}
use sponsoryeet.Loop.Seek.{print_segment}

module _ {W : Type 0} (os : Os W) where
  -- The clock has been read this often.
  abbrev pub after_ticks : ℕ → W → W
  after_ticks zero w = w
  after_ticks (suc n) w = (os.time (after_ticks n w)).1

  -- Nothing has been done but reading the clock, twice at most.
  abbrev pub Ticked : W → W → Type 0
  Ticked before after = (n : ℕ) × (n ≤ 2) × (after ≡ after_ticks n before)

module _ {D W : Type 0} (double : Double D) (os : Os W) (p : Protobuf CastMessage)
    (first : Bool) where
  -- Where `maybeSeek` reads the clock first to seek, behind the position that it may print.
  unfoldable pub clock_read : Machine D W → W
  unfolding print_segment
  clock_read s = (print_segment double os p first (current_segment_end double os s).1).1.world

  current_position-after_ticks :
      (s : Machine D W)
      → (n : ℕ) × (n ≤ 1) × ((current_position double os s).1.world ≡ after_ticks os n s.world)
  unfolding current_position
  current_position-after_ticks s = elim (Bool-cases (not s.globals.currently_playing)) [
    | inl e ↦ rw e (0, omega arith, refl)
    | inr e ↦ elim (Bool-cases (double.lt s.globals.current_position (nought double))) [
      | inl f ↦ rw (e, f) (0, omega arith, refl)
      | inr f ↦ rw (e, f) (1, omega arith, refl)
    ]
  ]

  after_ticks-add :
      (k n : ℕ) (w : W) → after_ticks os k (after_ticks os n w) ≡ after_ticks os (k + n) w
  after_ticks-add zero n w = let e : n ≡ 0 + n = omega arith in ap (λ j. after_ticks os j w) e
  after_ticks-add (suc k) n w =
      let e : suc (k + n) ≡ suc k + n = omega arith in
      ap (λ v. (os.time v).1) (after_ticks-add k n w) ∙ ap (λ j. after_ticks os j w) e

  pub clock_read-Ticked : (s : Machine D W) → Ticked os s.world (clock_read s)
  unfolding clock_read print_segment current_segment_end current_position
  clock_read-Ticked s =
      let s₁ = (current_position double os s).1 in
      let (n, few, e) = current_position-after_ticks s in
      let (k, few', e') = current_position-after_ticks s₁ in
      elim (Bool-cases s₁.globals.verbose) [
        | inl v ↦
            rw v (k + n, omega arith, e' ∙ ap (after_ticks os k) e ∙ after_ticks-add k n s.world)
        | inr v ↦ rw v (n, omega arith, e)
      ]
