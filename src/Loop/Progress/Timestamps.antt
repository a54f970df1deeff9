-- ===== src/Loop/Progress/Timestamps.antt =====
-- `printTimestamp` of loop.h, read back.
use sponsoryeet.Prelude.{
  ℕ, zero, suc, ◌+◌, ◌-◌, ◌*◌, ◌/◌, ◌%◌, ◌<◌, ◌≡◌, refl, Bool, true, ◌&&◌, [], ◌∷◌, length, pos,
  Bytes, bytes_eq, bytes_eq→eq, arith,
}
use sponsoryeet.Loop.Progress.{two_digits, print_timestamp}

-- Hours, minutes and seconds of two digits each, in seconds.
abbrev pub read_timestamp : Bytes → ℕ
read_timestamp (a ∷ b ∷ _ ∷ c ∷ d ∷ _ ∷ e ∷ f ∷ []) =
    ((a - b'0') * 10 + (b - b'0')) * 3600
    + ((c - b'0') * 10 + (d - b'0')) * 60
    + ((e - b'0') * 10 + (f - b'0'))
read_timestamp _ = 0

abbrev digit_pair : ℕ → Bytes
digit_pair n = (b'0' + n / 10) ∷ (b'0' + n % 10) ∷ []

-- Every value below a bound is checked by evaluation.
all_below : ℕ → (ℕ → Bool) → Bool
all_below zero test = true
all_below (suc n) test = test n && all_below n test

all_below_sound :
    (n : ℕ) (test : ℕ → Bool) (x : ℕ) → all_below n test ≡ true → x < n → test x ≡ true
unfolding all_below
all_below_sound zero test x h lt = absurd (omega arith)
all_below_sound (suc n) test x h lt = ground (arith, all_below_sound n test x)

two_digits_table : all_below 60 (λ n. bytes_eq (two_digits (pos n)) (digit_pair n)) ≡ true
unfolding all_below two_digits
two_digits_table = refl

two_digits-pair : (n : ℕ) → n < 60 → two_digits (pos n) ≡ digit_pair n
two_digits-pair n h =
    bytes_eq→eq (two_digits (pos n)) (digit_pair n)
      (all_below_sound 60 (λ k. bytes_eq (two_digits (pos k)) (digit_pair k)) n two_digits_table h)

-- A time that is not negative is printed as eight characters, and read back as that time up to a
-- multiple of sixty hours.
pub read_timestamp-print_timestamp :
    (n : ℕ)
    → (length (print_timestamp (pos n)) ≡ 8)
      × (read_timestamp (print_timestamp (pos n)) ≡ n % 216000)
unfolding print_timestamp
read_timestamp-print_timestamp n =
    let h = two_digits-pair (n / 60 / 60 % 60) (omega arith) in
    let m = two_digits-pair (n / 60 % 60) (omega arith) in
    let s = two_digits-pair (n % 60) (omega arith) in rw (h, m, s) (refl, omega arith)
