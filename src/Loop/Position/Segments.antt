-- ===== src/Loop/Position/Segments.antt =====
-- What the two loops of loop.h over the segments find.
use sponsoryeet.Prelude.{
  ◌≡◌, ◌⊎◌, inl, inr, refl, sym, ap, ◌∙◌, subst, Bool, true, false, not, ◌||◌, List, [], ◌∷◌, ◌++◌,
  ℤ, Bool-cases, leb_ℤ, All, arith,
}
use mathlib.Core.Bool.{true≢false}
use sponsoryeet.State.{Double, IsDouble, Segment}
use sponsoryeet.Loop.Position.{minus_one, lowest_begin, active_end}

abbrev pub Any : {A : Type 0} → (A → Type 0) → List A → Type 0
Any P [] = ⊥
Any P (x ∷ xs) = P x ⊎ Any P xs

module _ {D : Type 0} (double : Double D) where
  open double use {lt, sub, of_int, to_int}

  -- The segment is over at `current`.
  abbrev pub Ended : D → Segment D → Type 0
  Ended current s = lt s.end current ≡ true

  -- The segment is not over, and begins at `low`.
  abbrev pub BeginsAt : D → D → Segment D → Type 0
  BeginsAt current low s = (lt s.end current ≡ false) × (s.begin ≡ low)

  -- The segment is over, or does not begin before `low`.
  abbrev pub NotBefore : D → D → Segment D → Type 0
  NotBefore current low s = (lt s.end current ≡ true) ⊎ (lt s.begin low ≡ false)

  module _ (current : D) (s : Segment D) (ss : List (Segment D)) where
    lowest_begin-ended :
        (lowest : D) (found : Bool)
        → lt s.end current ≡ true
        → lowest_begin double current (s ∷ ss) lowest found
          ≡ lowest_begin double current ss lowest found
    unfolding lowest_begin
    lowest_begin-ended lowest found e = rw e

    lowest_begin-better :
        (lowest : D) (found : Bool)
        → lt s.end current ≡ false
        → (not found || lt s.begin lowest) ≡ true
        → lowest_begin double current (s ∷ ss) lowest found
          ≡ lowest_begin double current ss s.begin true
    unfolding lowest_begin
    lowest_begin-better lowest found e b = rw (e, b)

    lowest_begin-worse :
        (lowest : D)
        → lt s.end current ≡ false
        → lt s.begin lowest ≡ false
        → lowest_begin double current (s ∷ ss) lowest true
          ≡ lowest_begin double current ss lowest true
    unfolding lowest_begin
    lowest_begin-worse lowest e b = rw (e, b)

  -- The loop, begun with a segment found at `lowest`, stays there or finds one that begins earlier.
  abbrev Improves : D → List (Segment D) → D → D × Bool → Type 0
  Improves current ss lowest r =
      (r.1 ≡ true)
      × ((r.0 ≡ lowest) ⊎ (Any (BeginsAt current r.0) ss × (lt r.0 lowest ≡ true)))
      × All (NotBefore current r.0) ss

  -- The loop, begun with nothing found, finds nothing where all is over, and else the first to begin.
  abbrev pub Finds : D → List (Segment D) → D × Bool → Type 0
  Finds current ss r =
      ((r.1 ≡ false) × All (Ended current) ss)
      ⊎ ((r.1 ≡ true) × Any (BeginsAt current r.0) ss × All (NotBefore current r.0) ss)

  module _ (laws : IsDouble double) where
    open laws use {lt_irrefl, lt_trans}

    lt_false_of_lt : (x y z : D) → lt x z ≡ false → lt y z ≡ true → lt x y ≡ false
    lt_false_of_lt x y z h k = ground (arith, lt_trans x y z)

    lt_false_of_improved :
        (x low lowest : D)
        → lt x lowest ≡ false
        → {P : Type 0} → (low ≡ lowest) ⊎ (P × (lt low lowest ≡ true))
        → lt x low ≡ false
    lt_false_of_improved x low lowest h (inl e) = rw e h
    lt_false_of_improved x low lowest h (inr (_, k)) = lt_false_of_lt x low lowest h k

    later :
        {low lowest current : D} (s : Segment D) (ss : List (Segment D))
        → (low ≡ lowest) ⊎ (Any (BeginsAt current low) ss × (lt low lowest ≡ true))
        → (low ≡ lowest) ⊎ (Any (BeginsAt current low) (s ∷ ss) × (lt low lowest ≡ true))
    later s ss (inl e) = inl e
    later s ss (inr (a, b)) = inr (inr a, b)

    also_ended :
        {current : D} {r : D × Bool} (s : Segment D) (ss : List (Segment D))
        → lt s.end current ≡ true
        → Finds current ss r
        → Finds current (s ∷ ss) r
    also_ended s ss e (inl (f, all)) = inl (f, (e, all))
    also_ended s ss e (inr (f, c, n)) = inr (f, inr c, (inl e, n))

    -- The segment that the loop takes over is where it began, or a later one is.
    taken :
        {low current : D} (s : Segment D) (ss : List (Segment D))
        → lt s.end current ≡ false
        → (low ≡ s.begin) ⊎ (Any (BeginsAt current low) ss × (lt low s.begin ≡ true))
        → Any (BeginsAt current low) (s ∷ ss)
    taken s ss e (inl q) = inl (e, sym q)
    taken s ss e (inr (a, b)) = inr a

    lower :
        {P : Type 0} {low lowest : D} (s : Segment D)
        → lt s.begin lowest ≡ true
        → (low ≡ s.begin) ⊎ (P × (lt low s.begin ≡ true))
        → lt low lowest ≡ true
    lower s b (inl q) = rw q b
    lower s b (inr (a, c)) = lt_trans _ _ _ c b

    lowest_begin-Improves :
        (current : D) (ss : List (Segment D)) (lowest : D)
        → Improves current ss lowest (lowest_begin double current ss lowest true)
    lowest_begin-Improves current [] lowest = unfold lowest_begin in (refl, inl refl, tt)
    lowest_begin-Improves current (s ∷ ss) lowest = elim (Bool-cases (lt s.end current)) [
      | inl e ↦
          let (f, c, n) = lowest_begin-Improves current ss lowest in
          subst (Improves current (s ∷ ss) lowest)
            (sym (lowest_begin-ended current s ss lowest true e)) (f, later s ss c, (inl e, n))
      | inr e ↦ elim (Bool-cases (lt s.begin lowest)) [
        | inl b ↦
            let (f, c, n) = lowest_begin-Improves current ss s.begin in
            subst (Improves current (s ∷ ss) lowest)
              (sym (lowest_begin-better current s ss lowest true e b))
              (
                f,
                inr (taken s ss e c, lower s b c),
                (inr (lt_false_of_improved s.begin _ s.begin (lt_irrefl s.begin) c), n),
              )
        | inr b ↦
            let (f, c, n) = lowest_begin-Improves current ss lowest in
            subst (Improves current (s ∷ ss) lowest)
              (sym (lowest_begin-worse current s ss lowest e b))
              (f, later s ss c, (inr (lt_false_of_improved s.begin _ lowest b c), n))
      ]
    ]

    -- The loop of `secondsUntilNextSegment` from its start: it finds nothing exactly if every segment
    -- is over, and else the begin of a segment that is not over, such that no segment that is not over
    -- begins earlier.
    pub lowest_begin-Finds :
        (current : D) (ss : List (Segment D)) (start : D)
        → Finds current ss (lowest_begin double current ss start false)
    lowest_begin-Finds current [] start = unfold lowest_begin in inl (refl, tt)
    lowest_begin-Finds current (s ∷ ss) start = elim (Bool-cases (lt s.end current)) [
      | inl e ↦
          subst (Finds current (s ∷ ss)) (sym (lowest_begin-ended current s ss start false e))
            (also_ended s ss e (lowest_begin-Finds current ss start))
      | inr e ↦
          let (f, c, n) = lowest_begin-Improves current ss s.begin in
          subst (Finds current (s ∷ ss)) (sym (lowest_begin-better current s ss start false e refl))
            (inr (
              f,
              taken s ss e c,
              (inr (lt_false_of_improved s.begin _ s.begin (lt_irrefl s.begin) c), n),
            ))
    ]

  -- The segment plays at the second `current`.
  abbrev pub IsActive : ℤ → Segment D → Type 0
  IsActive current s = (leb_ℤ (to_int s.end) current ≡ false) × (lt s.begin (of_int current) ≡ true)

  -- The end of the first segment that plays, or -1 if none does.
  abbrev pub EndsFirst : ℤ → List (Segment D) → D → Type 0
  EndsFirst current ss end =
      ((before : List (Segment D)) × (s : Segment D) × (after : List (Segment D)) × (ss
          ≡ before ++ s ∷ after)
        × All (λ t. ¬ IsActive current t) before
        × IsActive current s
        × (end ≡ s.end))
      ⊎ (All (λ t. ¬ IsActive current t) ss × (end ≡ minus_one double))

  idle_first :
      (current : ℤ) (s : Segment D) (ss : List (Segment D)) (end : D)
      → ¬ IsActive current s
      → EndsFirst current ss end
      → EndsFirst current (s ∷ ss) end
  idle_first current s ss end n (inl (before, t, after, e, all, a, q)) =
      inl (s ∷ before, t, after, ap (λ l. s ∷ l) e, (n, all), a, q)
  idle_first current s ss end n (inr (all, q)) = inr ((n, all), q)

  -- The loop of `currentSegmentEnd` returns the end of the first segment in the list that plays at the
  -- second, and -1 exactly if none does.
  pub active_end-EndsFirst :
      (current : ℤ) (ss : List (Segment D)) → EndsFirst current ss (active_end double current ss)
  active_end-EndsFirst current [] = unfold active_end in inr (tt, refl)
  active_end-EndsFirst current (s ∷ ss) = elim (Bool-cases (leb_ℤ (to_int s.end) current)) [
    | inl over ↦ subst (EndsFirst current (s ∷ ss)) (sym (skip_over over)) (
        idle_first current s ss _ (λ a. true≢false (sym over ∙ a.0))
          (active_end-EndsFirst current ss))
    | inr here ↦ elim (Bool-cases (lt s.begin (of_int current))) [
      | inl begun ↦
          subst (EndsFirst current (s ∷ ss)) (sym (take_end here begun))
            (inl ([], s, ss, refl, tt, (here, begun), refl))
      | inr ahead ↦ subst (EndsFirst current (s ∷ ss)) (sym (skip_ahead ahead)) (
          idle_first current s ss _ (λ a. true≢false (sym a.1 ∙ ahead))
            (active_end-EndsFirst current ss))
    ]
  ]
    where
      skip_over :
          leb_ℤ (to_int s.end) current ≡ true
          → active_end double current (s ∷ ss) ≡ active_end double current ss
      skip_over e = unfold active_end in rw e

      take_end :
          leb_ℤ (to_int s.end) current ≡ false
          → lt s.begin (of_int current) ≡ true
          → active_end double current (s ∷ ss) ≡ s.end
      take_end e f = unfold active_end in rw (e, f)

      skip_ahead :
          lt s.begin (of_int current) ≡ false
          → active_end double current (s ∷ ss) ≡ active_end double current ss
      skip_ahead e = unfold active_end in ground arith
