-- ===== src/Loop/Handle/OutOfRange.antt =====
-- `handleMessage` of loop.h and `extractNumber` of util.h when `errno` says `ERANGE` from before.
use sponsoryeet.Prelude.{
  ◌≡◌, refl, ◌∙◌, Bool, true, ◌==◌, Bool-cases, inl, inr, none, Bytes, is_empty, arith,
}
use sponsoryeet.Cast.Protobuf.{Protobuf}
use sponsoryeet.Cast.Message.{CastMessage}
use sponsoryeet.State.{Double, Os, Matcher, Machine, ◌>>=◌, call}
use sponsoryeet.Extract.{regex_extract, convert, extract_number}
use sponsoryeet.Loop.Handle.{
  note_duration, note_position, update_numbers, duration_regex, time_regex,
}

-- `strtod` leaves a range error in `errno`.
abbrev pub KeepsRangeError : {D W : Type 0} → Os W → Matcher D W → Type 0
KeepsRangeError {D} {W} os m =
    (text : Bytes) (w : W) → os.errno w ≡ m.erange → os.errno (m.strtod text w).1 ≡ m.erange

module _ {D W : Type 0} (os : Os W) (m : Matcher D W) (keeps : KeepsRangeError os m) where
  convert-out_of_range :
      (text : Bytes) (s : Machine D W)
      → os.errno s.world ≡ m.erange
      → convert os m text s ≡ (none, (call (m.strtod text) s).1)
  unfolding convert
  convert-out_of_range text s h =
      let same : (os.errno (m.strtod text s.world).1 == m.erange) ≡ true =
        let e = keeps text s.world h in ground (arith, e) in
      elim (Bool-cases ((m.strtod text s.world).0.1 == 0)) [
        | inl z ↦ rw z refl
        | inr z ↦ rw (z, same) refl
      ]

  -- No number is extracted, no variable changes, and the range error stays.
  extract_number-out_of_range :
      (regex payload : Bytes) (s : Machine D W)
      → os.errno s.world ≡ m.erange
      → ((extract_number os m regex payload s).0 ≡ none)
        × ((extract_number os m regex payload s).1.globals ≡ s.globals)
        × (os.errno (extract_number os m regex payload s).1.world ≡ m.erange)
  unfolding extract_number
  extract_number-out_of_range regex payload s h =
      let text = regex_extract os m regex payload in
      elim (Bool-cases (is_empty text)) [
        | inl e ↦ rw e (refl, refl, h)
        | inr e ↦ rw (e, convert-out_of_range text s h) (refl, refl, keeps text s.world h)
      ]

  -- If `errno` is `ERANGE`, and `strtod` leaves it there, the two extractions of a media status update
  -- neither the position nor the duration, whatever the message holds: they change no variable, and
  -- `errno` is still `ERANGE` behind them.
  pub update_numbers-out_of_range :
      (double : Double D) (p : Protobuf CastMessage) (first : Bool) (payload : Bytes)
      (s : Machine D W)
      → os.errno s.world ≡ m.erange
      → ((update_numbers double os m p first payload s).1.globals ≡ s.globals)
        × (os.errno (update_numbers double os m p first payload s).1.world ≡ m.erange)
  unfolding update_numbers note_duration note_position
  update_numbers-out_of_range double p first payload s h =
      let (none₁, same₁, stays₁) = extract_number-out_of_range duration_regex payload s h in
      let after = (extract_number os m duration_regex payload s).1 in
      let (none₂, same₂, stays₂) = extract_number-out_of_range time_regex payload after stays₁ in
      rw (none₁, ◌>>=◌, none₂) (same₂ ∙ same₁, stays₂)
