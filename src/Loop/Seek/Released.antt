-- ===== src/Loop/Seek/Released.antt =====
-- `maybeSeek` of loop.h takes and frees nothing.
use sponsoryeet.State.Bag.{Bag}
use sponsoryeet.Prelude.{ltb, ◌+◌, ◌≡◌, refl, ◌∙◌, Bool, not, ◌||◌, Bool-cases, inl, inr, is_empty}
use sponsoryeet.Cast.Protobuf.{Protobuf}
use sponsoryeet.Cast.Message.{CastMessage}
use sponsoryeet.State.{Double, Os, Action, return, call}
use sponsoryeet.State.World.{KeepsWorld, choose-KeepsWorld}
use sponsoryeet.Connection.{Connection}
use sponsoryeet.Connection.Released.{Holds}
use sponsoryeet.Chromecast.Released.{seek-held}
use sponsoryeet.Loop.Position.{no_segments, nought, current_position, current_segment_end}
use sponsoryeet.Loop.Seek.{skip, skip_if_due, print_segment, seek_to, maybe_seek}

module _ {D W : Type 0} (double : Double D) (os : Os W) (p : Protobuf CastMessage) (first : Bool)
    (held : W → Bag) (holds : Holds os held) (times : (w : W) → held (os.time w).1 ≡ held w) where
  abbrev Keeps : {A : Type 0} → Action D W A → Type 0
  Keeps = KeepsWorld held

  pub current_position-held : Keeps (current_position double os)
  unfolding current_position
  current_position-held s = elim (Bool-cases (not s.globals.currently_playing)) [
    | inl e ↦ rw e refl
    | inr e ↦ elim (Bool-cases (double.lt s.globals.current_position (nought double))) [
      | inl f ↦ rw (e, f) refl
      | inr f ↦ rw (e, f) (times s.world)
    ]
  ]

  skip-held :
      (conn : Connection) (segment_end : D) → Keeps (skip double os p first conn segment_end)
  unfolding skip
  skip-held conn segment_end s =
      seek-held double os p first held holds conn segment_end _ ∙ times s.world

  skip_if_due-held :
      (conn : Connection) (segment_end : D) → Keeps (skip_if_due double os p first conn segment_end)
  unfolding skip_if_due
  skip_if_due-held conn segment_end s =
      let (now, s₁) = call os.time s in
      elim (Bool-cases (not s.globals.currently_playing)) [
        | inl e ↦ rw e refl
        | inr e ↦ elim (Bool-cases (ltb now (s.globals.last_seek + 1))) [
          | inl f ↦ rw (e, f) (times s.world)
          | inr f ↦ rw (e, f) (skip-held conn segment_end s₁ ∙ times s.world)
        ]
      ]

  print_segment-held : Keeps (print_segment double os p first)
  unfolding print_segment
  print_segment-held s =
      choose-KeepsWorld held s.globals.verbose (λ t. (tt, (current_position double os t).1))
        (return tt) current_position-held (λ t. refl) s

  seek_to-held :
      (conn : Connection) (segment_end : D) → Keeps (seek_to double os p first conn segment_end)
  unfolding seek_to
  seek_to-held conn segment_end s = elim (Bool-cases (double.lt segment_end (nought double))) [
    | inl e ↦ rw e refl
    | inr e ↦ rw e (
        skip_if_due-held conn segment_end (print_segment double os p first s).1
        ∙ print_segment-held s)
  ]

  pub maybe_seek-held : (conn : Connection) → Keeps (maybe_seek double os p first conn)
  unfolding maybe_seek current_segment_end
  maybe_seek-held conn s =
      let (segment_end, s₁) = current_segment_end double os s in
      elim (Bool-cases
        (is_empty s.globals.current_video || no_segments s.globals.current_segments)) [
          | inl e ↦ rw e refl
          | inr e ↦ rw e (seek_to-held conn segment_end s₁ ∙ current_position-held s)
        ]
