-- ===== src/Util.antt =====
-- `stringSplit` of util.h, by positions as the source writes it. `none` is a loop that outruns its
-- fuel, and the fuel is one round more than the text has bytes.
pub mod Split
use mathlib.Core.Option
use sponsoryeet.Prelude.{
  ℕ, zero, suc, ◌+◌, ◌-◌, Option, none, some, List, [], ◌∷◌, ◌++◌, if◌then◌else◌, ltb, ◌==◌, length,
  take, drop, Bytes,
}

-- The index of the first `c`.
abbrev pub index_of : ℕ → Bytes → Option ℕ
index_of c [] = none
index_of c (x ∷ xs) = if x == c then some 0 else Option.map suc (index_of c xs)

-- `string.find(c, start)`; `none` is `npos`.
abbrev pub find : Bytes → ℕ → ℕ → Option ℕ
find s c start = Option.map (λ i. start + i) (index_of c (drop start s))

-- `string.substr(start, count)`, where `start` is in range.
abbrev pub substr : Bytes → ℕ → ℕ → Bytes
substr s start count = take count (drop start s)

-- What a round of the loop does: it goes on at a new `start`, or leaves.
pub data Round : Type 0 where
  again : ℕ → Bytes → Round
  leave : Round

pub split_round : Bytes → ℕ → ℕ → Round
split_round s delimiter start =
    if ltb start (length s)
    then elim (find s delimiter start) [
      | none ↦ leave
      | some end ↦ again (end + 1) (substr s start (end - start))
    ]
    else leave

pub split_loop : ℕ → Bytes → ℕ → ℕ → List Bytes → Option (List Bytes)
split_loop zero s delimiter start ret = none
split_loop (suc fuel) s delimiter start ret = elim (split_round s delimiter start) [
  | again start' part ↦ split_loop fuel s delimiter start' (ret ++ part ∷ [])
  | leave ↦ some (ret ++ drop start s ∷ [])
]

unfoldable pub string_split : Bytes → ℕ → Option (List Bytes)
unfolding split_loop split_round
string_split s delimiter = split_loop (suc (length s)) s delimiter 0 []
