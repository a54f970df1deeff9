-- ===== src/Loop/Seek/Once.antt =====
-- When `maybeSeek` of loop.h seeks, and that it does so once.
use sponsoryeet.Prelude.{
  ◌+◌, ◌<◌, ◌≤◌, ◌≡◌, refl, ◌⊎◌, inl, inr, List, ap, ◌∙◌, sym, subst, subst₂, Bool, true, false,
  not, ◌||◌, ltb, Bool-cases, is_empty, arith,
}
use sponsoryeet.Cast.Protobuf.{Protobuf}
use sponsoryeet.Cast.Message.{CastMessage}
use sponsoryeet.State.{Double, IsDouble, Segment, Globals, Os, Machine}
use sponsoryeet.Connection.{Connection}
use sponsoryeet.Chromecast.{seek}
use sponsoryeet.Chromecast.Effects.{requests, seek-globals}
use sponsoryeet.Loop.Position.{
  no_segments, minus_one, nought, current_position, current_segment_end, segment_end_at,
}
use sponsoryeet.Loop.Position.Answers.{current_position-globals}
use sponsoryeet.Loop.Seek.Clock.{clock_read, Ticked, clock_read-Ticked}
use sponsoryeet.Loop.Seek.{seeking, skip, skip_if_due, print_segment, seek_to, maybe_seek}

module _ {D W : Type 0} (double : Double D) (os : Os W) (p : Protobuf CastMessage)
    (first : Bool) where
  -- Why `maybeSeek` does not seek, where the clock is read in `clock`.
  abbrev pub Refusal : D → Globals D → W → Type 0
  Refusal end g clock =
      (is_empty g.current_video ≡ true)
      ⊎ ((no_segments g.current_segments ≡ true)
          ⊎ ((double.lt end (nought double) ≡ true)
              ⊎ ((g.currently_playing ≡ false) ⊎ ((os.time clock).0 ≤ g.last_seek))))

  -- What a call of `maybeSeek` does: it leaves the variables alone, for one of the reasons, or there is a
  -- video, playback is on, the clock has passed the second of the last seek, and all that it does then is
  -- to read the clock again, and a seek to `end`, which is not negative.
  abbrev pub Sought : Connection → D → Globals D → W → Machine D W → Type 0
  Sought conn end g clock after =
      (Refusal end g clock × (after.globals ≡ g))
      ⊎ ((is_empty g.current_video ≡ false)
          × (double.lt end (nought double) ≡ false)
          × (g.currently_playing ≡ true)
          × (g.last_seek < (os.time clock).0)
          × (after
              ≡ (seek double os p first conn end (record {
                globals = seeking double (os.time (os.time clock).1).0 g;
                world = (os.time (os.time clock).1).1;
              })).1))

  skip_if_due-Sought :
      (conn : Connection) (end : D) (s : Machine D W)
      → is_empty s.globals.current_video ≡ false
      → double.lt end (nought double) ≡ false
      → Sought conn end s.globals s.world (skip_if_due double os p first conn end s).1
  skip_if_due-Sought conn end s video ahead = elim (Bool-cases s.globals.currently_playing) [
    | inl e ↦ elim (Bool-cases (ltb (os.time s.world).0 (s.globals.last_seek + 1))) [
      | inl early ↦ inl (inr (inr (inr (inr (ground arith)))), unfold skip_if_due in rw (e, early))
      | inr due ↦ inr (video, ahead, e, ground arith, unfold skip_if_due skip in rw (e, due))
    ]
    | inr e ↦ inl (inr (inr (inr (inl e))), unfold skip_if_due in rw e)
  ]

  pub print_segment-globals :
      (s : Machine D W) → (print_segment double os p first s).1.globals ≡ s.globals
  unfolding print_segment
  print_segment-globals s = ground (arith, current_position-globals double os s)

  seek_to-Sought :
      (conn : Connection) (end : D) (s : Machine D W)
      → is_empty s.globals.current_video ≡ false
      → Sought conn end s.globals
          (print_segment double os p first s).1.world
          (seek_to double os p first conn end s).1
  seek_to-Sought conn end s video = elim (Bool-cases (double.lt end (nought double))) [
    | inl e ↦ inl (inr (inr (inl e)), unfold seek_to in rw e)
    | inr e ↦
        let s' = (print_segment double os p first s).1 in
        let go : seek_to double os p first conn end s ≡ skip_if_due double os p first conn end s' =
          unfold seek_to in rw e in
        rw go (
          subst (λ g. Sought conn end g s'.world (skip_if_due double os p first conn end s').1)
            (print_segment-globals s)
            (skip_if_due-Sought conn end s'
              (subst (λ g. is_empty g.current_video ≡ false) (sym (print_segment-globals s)) video)
              e))
  ]

  no_video_lem :
      (end : D) (g : Globals D) (clock : W) (a b : Bool)
      → (is_empty g.current_video ≡ a)
      → (no_segments g.current_segments ≡ b)
      → (a || b) ≡ true
      → Refusal end g clock
  no_video_lem end g clock true b h k e = inl h
  no_video_lem end g clock false b h k e = inr (inl (k ∙ e))

  pub current_segment_end-eq :
      (s : Machine D W)
      → (current_segment_end double os s).0
        ≡ segment_end_at double (current_position double os s).0 s.globals.current_segments
  unfolding current_segment_end
  current_segment_end-eq s =
      ap (λ g. segment_end_at double (current_position double os s).0 g.current_segments)
        (current_position-globals double os s)

  pub current_segment_end-globals :
      (s : Machine D W) → (current_segment_end double os s).1.globals ≡ s.globals
  unfolding current_segment_end
  current_segment_end-globals s = current_position-globals double os s

  pub maybe_seek-Sought :
      (conn : Connection) (s : Machine D W)
      → Ticked os s.world (clock_read double os p first s)
        × Sought conn
            (segment_end_at double (current_position double os s).0 s.globals.current_segments)
            s.globals
            (clock_read double os p first s)
            (maybe_seek double os p first conn s).1
  unfolding clock_read
  maybe_seek-Sought conn s = (
    clock_read-Ticked double os p first s,
    elim (Bool-cases (is_empty s.globals.current_video || no_segments s.globals.current_segments)) [
      | inl e ↦ inl (
        no_video_lem _ s.globals (clock_read double os p first s) (is_empty s.globals.current_video)
            (no_segments s.globals.current_segments) refl refl e,
        unfold maybe_seek in rw e,
      )
      | inr e ↦
          let found = current_segment_end double os s in
          let go : maybe_seek double os p first conn s
              ≡ seek_to double os p first conn found.0 found.1 =
            unfold maybe_seek in rw e in
          rw go (
            subst₂
              (λ end g.
                Sought conn end g (clock_read double os p first s)
                  (seek_to double os p first conn found.0 found.1).1)
              (current_segment_end-eq s) (current_segment_end-globals s)
              (seek_to-Sought conn found.0 found.1 (
                subst (λ g. is_empty g.current_video ≡ false) (sym (current_segment_end-globals s))
                  (ground (arith, e)))))
    ],
  )

  module _ (laws : IsDouble double) where
    segment_end_at-unknown :
        (ss : List (Segment D)) → segment_end_at double (minus_one double) ss ≡ minus_one double
    unfolding segment_end_at
    segment_end_at-unknown ss = rw (laws.minus_one_ceil)

    current_position-unknown :
        (s : Machine D W)
        → s.globals.currently_playing ≡ true
        → s.globals.current_position ≡ minus_one double
        → current_position double os s ≡ (minus_one double, s)
    unfolding current_position
    current_position-unknown s playing unknown = ground (arith, laws.minus_one_lt)

    current_segment_end-unknown :
        (s : Machine D W)
        → s.globals.currently_playing ≡ true
        → s.globals.current_position ≡ minus_one double
        → current_segment_end double os s ≡ (minus_one double, s)
    unfolding current_segment_end
    current_segment_end-unknown s playing unknown =
        ap (λ (r : D × Machine D W). (segment_end_at double r.0 r.1.globals.current_segments, r.1))
          (current_position-unknown s playing unknown)
        ∙ ap (λ (e : D). (e, s)) (segment_end_at-unknown s.globals.current_segments)

    seek_to-unknown :
        (conn : Connection) (s : Machine D W)
        → seek_to double os p first conn (minus_one double) s ≡ (tt, s)
    unfolding seek_to
    seek_to-unknown conn s = rw laws.minus_one_lt

    -- Where no position is known, `maybeSeek` does nothing at all during playback.
    maybe_seek-unknown :
        (conn : Connection) (s : Machine D W)
        → s.globals.currently_playing ≡ true
        → s.globals.current_position ≡ minus_one double
        → maybe_seek double os p first conn s ≡ (tt, s)
    maybe_seek-unknown conn s playing unknown =
        elim (Bool-cases
          (is_empty s.globals.current_video || no_segments s.globals.current_segments)) [
            | inl e ↦ unfold maybe_seek in rw e
            | inr e ↦
                let go : maybe_seek double os p first conn s ≡ (
                    let found = current_segment_end double os s in
                    seek_to double os p first conn found.0 found.1) =
                  unfold maybe_seek in rw e in
                go
                ∙ ap (λ (r : D × Machine D W). seek_to double os p first conn r.0 r.1)
                    (current_segment_end-unknown s playing unknown)
                ∙ seek_to-unknown conn s
          ]

    -- `maybeSeek` seeks once: after a call that changed a variable, a second call in a row, at any
    -- later time, changes nothing and calls nothing.
    pub maybe_seek_once :
        (conn : Connection) (s : Machine D W)
        → let after = (maybe_seek double os p first conn s).1 in
          (after.globals ≡ s.globals) ⊎ (maybe_seek double os p first conn after ≡ (tt, after))
    maybe_seek_once conn s = elim ((maybe_seek-Sought conn s).1) [
      | inl (why, same) ↦ inl same
      | inr (video, ahead, playing, due, e) ↦
          let now = (os.time (os.time (clock_read double os p first s)).1).0 in
          let g : (maybe_seek double os p first conn s).1.globals
              ≡ requests double os p first (not (is_empty s.globals.media_session))
                  (seeking double now s.globals) =
            ap (λ (m : Machine D W). m.globals) e ∙ seek-globals double os p first conn _ _ in
          inr (
            maybe_seek-unknown conn _ (ap (λ (h : Globals D). h.currently_playing) g ∙ playing)
              (ap (λ (h : Globals D). h.current_position) g))
    ]
