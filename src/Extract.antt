-- ===== src/Extract.antt =====
-- `regexExtract` and `extractNumber` of util.h. Regular expressions and `strtod` are parameters.
use sponsoryeet.Prelude.{
  ℕ, not, ◌||◌, Option, none, some, List, [], ◌∷◌, if◌then◌else◌, ◌==◌, Bytes, is_empty,
}
use sponsoryeet.State.{Os, Matcher, Action, ◌>>=◌, return, call}

-- The first group of a match that has the match and one group.
abbrev pub only_group : List Bytes → Bytes
only_group (whole ∷ group ∷ []) = group
only_group _ = []

module _ {D W : Type 0} (os : Os W) (m : Matcher D W) where
  unfoldable pub regex_extract : Bytes → Bytes → Bytes
  regex_extract regex payload = elim (m.regex_search regex payload) [
    | none ↦ []
    | some match ↦ only_group match
  ]

  -- `errno`, as it stands.
  abbrev pub errno : Action D W ℕ
  errno s = (os.errno s.world, s)

  -- The number in a text, if there is one; `none` is the result `false`, which leaves `*number` alone.
  unfoldable pub convert : Bytes → Action D W (Option D)
  convert number_text = do
    (converted, used) ← call (m.strtod number_text)
    error ← errno
    if used == 0 || error == m.erange || not (m.is_finite converted)
        then return none
        else return (some converted)

  unfoldable pub extract_number : Bytes → Bytes → Action D W (Option D)
  unfolding convert
  extract_number regex payload =
      let number_text = regex_extract regex payload in
      if is_empty number_text then return none else convert number_text
