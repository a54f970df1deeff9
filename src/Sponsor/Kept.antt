-- ===== src/Sponsor/Kept.antt =====
-- The download of segments leaves alone what its calls leave alone.
use sponsoryeet.Prelude.{
  ℕ, zero, suc, ◌≡◌, refl, ◌∙◌, Bool-cases, Option-cases, inl, inr, List, [], ◌∷◌, ◌++◌, ◌==◌, drop,
  length, Bytes, codes, is_empty,
}
use sponsoryeet.State.{Os, Matcher, Segment, Machine, Action, ◌>>=◌, call}
use sponsoryeet.Connection.Download.{download_file}
use sponsoryeet.Extract.{only_group}
use sponsoryeet.Sponsor.{
  spaced, split_loop, split_to_double, as_segment, read_segments, add_categories, segments_regex,
  download_segments,
}

module _ {D W V : Type 0} (os : Os W) (m : Matcher D W) (view : Machine D W → V) where
  abbrev Keeps : {A : Type 0} → Action D W A → Type 0
  Keeps x = (s : Machine D W) → view (x s).1 ≡ view s

  module _ (converts : (text : Bytes) → Keeps (call (m.strtod text)))
      (clears : Keeps (call m.clear_errno)) where
    split_loop-Keeps :
        (fuel : ℕ) (begin : Bytes) (ret : List D) → Keeps (split_loop os m fuel begin ret)
    unfolding split_loop
    split_loop-Keeps zero begin ret s = refl
    split_loop-Keeps (suc fuel) begin ret s =
        let ((timestamp, used), after) = call (m.strtod begin) s in
        let same = converts begin s in
        elim (Bool-cases (used == 0)) [
          | inl e ↦ rw e same
          | inr e ↦ elim (Bool-cases (os.errno after.world == m.erange)) [
            | inl f ↦ rw (e, ◌>>=◌, f) (clears after ∙ same)
            | inr f ↦
                rw (e, ◌>>=◌, f)
                  (split_loop-Keeps fuel (drop used begin) (ret ++ timestamp ∷ []) after ∙ same)
          ]
        ]

    split_to_double-Keeps : (text : Bytes) → Keeps (split_to_double os m text)
    unfolding split_to_double
    split_to_double-Keeps text = split_loop-Keeps (suc (length (spaced text))) (spaced text) []

    read_segments-Keeps :
        (matches : List (List Bytes)) (segments : List (Segment D))
        → Keeps (read_segments os m matches segments)
    unfolding read_segments
    read_segments-Keeps [] segments s = refl
    read_segments-Keeps (match ∷ rest) segments s =
        let (numbers, after) = split_to_double os m (only_group match) s in
        let same = split_to_double-Keeps (only_group match) s in
        elim (Option-cases (as_segment os m numbers)) [
          | inl e ↦ rw (◌>>=◌, e) same
          | inr (segment, e) ↦
              rw (◌>>=◌, e) (read_segments-Keeps rest (segments ++ segment ∷ []) after ∙ same)
        ]

    pub download_segments-Keeps :
        ((hostname : Bytes) (port : ℕ) (path : Bytes) → Keeps (download_file os hostname port path))
        → (video_id : Bytes) → Keeps (download_segments os m video_id)
    unfolding download_segments
    download_segments-Keeps downloads video_id s = elim (Bool-cases (is_empty video_id)) [
      | inl e ↦ rw e refl
      | inr e ↦
          let query = add_categories s.globals.categories (codes "?videoID=" ++ video_id) in
          let path = codes "/api/skipSegments" ++ query in
          let (json, after) = download_file os (codes "sponsor.ajay.app") 443 path s in
          let same = downloads (codes "sponsor.ajay.app") 443 path s in
          elim (Bool-cases (is_empty json)) [
            | inl f ↦ rw (e, f) same
            | inr f ↦
                rw (e, f)
                  (read_segments-Keeps (m.regex_search_all segments_regex json) [] after ∙ same)
          ]
    ]
