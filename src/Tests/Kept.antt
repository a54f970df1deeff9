-- ===== src/Tests/Kept.antt =====
-- What the handler, the loop and the display do at concrete inputs.
use sponsoryeet.Prelude.{
  ℕ, ◌+◌, ◌%◌, ◌≡◌, refl, true, [], ◌∷◌, length, ℤ, pos, neg_part, Bytes, codes, arith,
}
use sponsoryeet.State.Bag.{empty}
use sponsoryeet.State.{Matcher, Machine}
use sponsoryeet.Sponsor.{spaced, split_loop, split_to_double}
use sponsoryeet.Sponsor.Fuel.{StaysInside, split_to_double-fuel}
use sponsoryeet.Loop.Progress.{print_timestamp, played, bar}
use sponsoryeet.Loop.Progress.Timestamps.{read_timestamp, read_timestamp-print_timestamp}
use sponsoryeet.Loop.Progress.Width.{length-bar}
use sponsoryeet.Tests.Toy.{World, seconds, system}
use sponsoryeet.Tests.Messages.{start, machine}
use sponsoryeet.Tests.Interrupted.{nothing_matches}

abbrev now_machine : Machine ℤ World
now_machine = record {
  globals = start;
  world = record { clock = 2000; sent = []; handles = empty; attributes = 8 };
}

-- One byte at a time.
abbrev number : Bytes → ℤ × ℕ
number [] = (pos 0, 0)
number (x ∷ rest) = (pos x, 1)

abbrev pub byte_reader : Matcher ℤ World
byte_reader = record nothing_matches { strtod = λ text w. (number text, w) }

byte_reader-StaysInside : StaysInside byte_reader
byte_reader-StaysInside [] w = omega arith
byte_reader-StaysInside (x ∷ rest) w = omega arith

print_hour : print_timestamp (pos 3725) ≡ codes "01:02:05"
unfolding print_timestamp
print_hour = refl

bar_halfway :
    bar seconds true (pos 100) (pos 200) ≡ codes "====================>--------------------"
unfolding bar
bar_halfway = refl

read_timestamp-print_timestamp_example :
    (length (print_timestamp (pos 3725)) ≡ 8)
    × (read_timestamp (print_timestamp (pos 3725)) ≡ 3725 % 216000)
read_timestamp-print_timestamp_example = read_timestamp-print_timestamp 3725

length-bar_example :
    length (bar seconds true (pos 100) (pos 200))
    ≡ 41 + neg_part (played seconds (pos 100) (pos 200))
length-bar_example = length-bar seconds true (pos 100) (pos 200)

split_to_double-fuel_example :
    split_loop system byte_reader 9 (spaced (codes "1,2")) [] machine
    ≡ split_to_double system byte_reader (codes "1,2") machine
split_to_double-fuel_example =
    split_to_double-fuel system byte_reader byte_reader-StaysInside 9 (codes "1,2") machine
      (omega arith)
