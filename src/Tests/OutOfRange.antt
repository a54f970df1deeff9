-- ===== src/Tests/OutOfRange.antt =====
-- Numbers of a message under an old `ERANGE`, at a concrete text.
use sponsoryeet.Prelude.{◌≡◌, refl, some, [], ◌∷◌, ℤ, pos, true, codes}
use sponsoryeet.State.{Matcher, Os}
use sponsoryeet.Loop.Handle.{update_numbers}
use sponsoryeet.Loop.Handle.OutOfRange.{KeepsRangeError, update_numbers-out_of_range}
use sponsoryeet.Tests.Toy.{World, seconds, system, plain}
use sponsoryeet.Tests.Messages.{start, machine}

-- Every pattern finds the number 5.
abbrev five : Matcher ℤ World
five = record {
  regex_search = λ pattern text. some (text ∷ codes "5" ∷ []);
  regex_search_all = λ pattern text. [];
  strtod = λ text w. ((pos 5, 1), w);
  erange = 34;
  clear_errno = λ w. (tt, w);
  is_finite = λ d. true;
}

abbrev out_of_range : Os World
out_of_range = record system { errno = λ w. 34 }

five-KeepsRangeError : KeepsRangeError out_of_range five
five-KeepsRangeError text w h = refl

update_numbers-out_of_range_example :
    ((update_numbers seconds out_of_range five plain true
        (codes "\"currentTime\":5")
        machine).1.globals
      ≡ start)
    × (out_of_range.errno
          (update_numbers seconds out_of_range five plain true
            (codes "\"currentTime\":5")
            machine).1.world
        ≡ 34)
update_numbers-out_of_range_example =
    update_numbers-out_of_range out_of_range five five-KeepsRangeError seconds plain true
      (codes "\"currentTime\":5") machine refl
