-- ===== src/Loop/Progress.antt =====
-- `printTimestamp` and `printProgress` of loop.h: the text that they print.
pub mod Timestamps
pub mod Width
use sponsoryeet.Prelude.{
  ℕ, zero, suc, ◌+◌, ◌*◌, ◌/◌, ◌%◌, Bool, true, false, ◌||◌, List, [], ◌∷◌, ◌++◌, if◌then◌else◌,
  ltb, replicate, ℤ, pos, negsuc, pos_part, ltb_ℤ, leb_ℤ, ◌-ℤ◌, Bytes, codes,
}
use sponsoryeet.State.{Double, Segment, Globals}
use sponsoryeet.Chromecast.{decimal}

abbrev pub progress_width : ℕ
progress_width = 40

-- `-n`.
abbrev negated : ℕ → ℤ
negated zero = pos 0
negated (suc n) = negsuc n

-- `/` and `%` of an `int`, which round towards zero.
abbrev pub quotient : ℤ → ℕ → ℤ
quotient (pos n) k = pos (n / k)
quotient (negsuc n) k = negated (suc n / k)

abbrev pub remainder : ℤ → ℕ → ℤ
remainder (pos n) k = pos (n % k)
remainder (negsuc n) k = negated (suc n % k)

-- `%.2d`.
unfoldable pub two_digits : ℤ → Bytes
unfolding decimal
two_digits (pos n) = if ltb n 10 then b'0' ∷ decimal n else decimal n
two_digits (negsuc n) = b'-' ∷ (if ltb (suc n) 10 then b'0' ∷ decimal (suc n) else decimal (suc n))

unfoldable pub print_timestamp : ℤ → Bytes
unfolding two_digits
print_timestamp timestamp =
    let seconds = remainder timestamp 60 in
    let rest = quotient timestamp 60 in
    let minutes = remainder rest 60 in
    let hours = remainder (quotient rest 60) 60 in
    two_digits hours ++ b':' ∷ (two_digits minutes ++ b':' ∷ two_digits seconds)

-- "\033[2K\r" and "\033[C"
abbrev erase_line : Bytes
erase_line = 27 ∷ codes "[2K" ++ 13 ∷ []

abbrev step_right : Bytes
step_right = 27 ∷ codes "[C"

abbrev pub repeated : ℕ → Bytes → Bytes
repeated zero text = []
repeated (suc n) text = text ++ repeated n text

module _ {D : Type 0} (double : Double D) where
  open double use {lt, mul, div, sub, of_int, to_int}

  abbrev width : D
  width = of_int (pos progress_width)

  -- `playedLength`, before it is limited.
  abbrev pub played : D → D → ℤ
  played position length = to_int (div (mul position width) length)

  -- What stands between the brackets.
  unfoldable pub bar : Bool → D → D → Bytes
  bar playing position length =
      let full = played position length in
      let part = if ltb_ℤ (pos progress_width) full then pos progress_width else full in
      replicate (pos_part part) b'='
      ++ (if playing then b'>' else b'|') ∷ replicate (pos_part (pos progress_width -ℤ part)) b'-'

  -- A segment is drawn over the bar.
  unfoldable pub mark : D → Segment D → Bytes
  mark length segment =
      let from = to_int (div (mul width segment.begin) length) in
      let start = if leb_ℤ (pos progress_width) from then pos 39 else from in
      let long = to_int (div (mul width (sub segment.end segment.begin)) length) in
      let segment_length = if ltb_ℤ long (pos 1) then 1 else pos_part long in
      13 ∷ (step_right ++ (repeated (pos_part start) step_right ++ replicate segment_length b'#'))

  pub marks : D → List (Segment D) → Bytes
  marks length [] = []
  marks length (segment ∷ rest) = mark length segment ++ marks length rest

  unfoldable pub print_progress : D → D → Globals D → Bytes
  unfolding bar marks print_timestamp mark
  print_progress position length g =
      let nought = of_int (pos 0) in
      if lt position nought || (lt length nought || lt g.last_position_fetched nought)
      then g.current_status ++ erase_line
      else (13 ∷ b'[' ∷ bar g.currently_playing position length)
        ++ (codes "] "
            ++ (print_timestamp (to_int position)
                ++ (b'/' ∷ print_timestamp (to_int length)
                    ++ (marks length g.current_segments ++ erase_line))))
