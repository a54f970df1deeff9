-- ===== src/Sponsor.antt =====
-- sponsor.h: the download of the segments to skip.
pub mod Kept
pub mod Globals
pub mod Fuel
use sponsoryeet.Prelude.{
  ℕ, zero, suc, true, false, Option, none, some, List, [], ◌∷◌, ◌++◌, map, if◌then◌else◌, ◌==◌,
  drop, length, Bytes, codes, is_empty,
}
use sponsoryeet.State.{Segment, Os, Matcher, Action, ◌>>=◌, return, get, call}
use sponsoryeet.Connection.Download.{download_file}
use sponsoryeet.Extract.{only_group, errno}

-- Every comma becomes a space.
pub spaced : Bytes → Bytes
spaced = map (λ c. if c == b',' then b' ' else c)

-- `query`, with every category.
pub add_categories : List Bytes → Bytes → Bytes
add_categories [] query = query
add_categories (category ∷ rest) query =
    add_categories rest (query ++ (codes "&category=" ++ category))

abbrev pub segments_regex : Bytes
segments_regex = codes "\"segment\"\\s*:\\[([^\\]]+)\\]"

module _ {D W : Type 0} (os : Os W) (m : Matcher D W) where
  -- The loop of `splitToDouble`, with the numbers so far; the number in hand was read by the round
  -- before. It ends when nothing is consumed, so the text's length bounds the rounds.
  pub split_loop : ℕ → Bytes → List D → Action D W (List D)
  split_loop zero begin ret = return ret
  split_loop (suc fuel) begin ret = do
    (timestamp, used) ← call (m.strtod begin)
    error ← errno os m
    elim (used == 0) [
      | true ↦ return ret
      | false ↦ elim (error == m.erange) [
        | true ↦ do cleared ← call m.clear_errno; return []
        | false ↦ split_loop fuel (drop used begin) (ret ++ timestamp ∷ [])
      ]
    ]

  unfoldable pub split_to_double : Bytes → Action D W (List D)
  unfolding split_loop spaced
  split_to_double text = let string = spaced text in split_loop (suc (length string)) string []

  -- Two numbers make a segment.
  abbrev pub as_segment : List D → Option (Segment D)
  as_segment (a ∷ b ∷ []) = some (record { begin = a; end = b })
  as_segment _ = none

  -- One entry that is not two numbers voids them all.
  pub read_segments : List (List Bytes) → List (Segment D) → Action D W (List (Segment D))
  read_segments [] segments = return segments
  read_segments (match ∷ rest) segments = do
    numbers ← split_to_double (only_group match)
    elim (as_segment numbers) [
      | none ↦ return []
      | some segment ↦ read_segments rest (segments ++ segment ∷ [])
    ]

  unfoldable pub download_segments : Bytes → Action D W (List (Segment D))
  unfolding read_segments add_categories split_to_double
  download_segments video_id = do
    g ← get
    if is_empty video_id then return [] else (do
      let query = add_categories g.categories (codes "?videoID=" ++ video_id)
      json ← download_file os (codes "sponsor.ajay.app") 443 (codes "/api/skipSegments" ++ query)
      if is_empty json
          then return []
          else read_segments (m.regex_search_all segments_regex json) [])
