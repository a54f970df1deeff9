-- ===== src/Util/Split.antt =====
-- What `stringSplit` of util.h computes: the parts between the delimiters.
use sponsoryeet.Prelude.{
  ℕ, zero, suc, ◌+◌, ◌<◌, ◌≤◌, ◌≡◌, ◌≢◌, ◌⊎◌, refl, ap, ◌∙◌, none, some, List, [], ◌∷◌, ◌++◌,
  append_assoc, if◌then◌else◌, inl, inr, ltb, ◌==◌, Bool-cases, Option-cases, length, take, drop,
  drop-drop, length-drop, All, Bytes, arith,
}
use sponsoryeet.Util.{index_of, again, leave, split_round, split_loop, string_split}

abbrev pub Lacks : ℕ → Bytes → Type 0
Lacks c = All (λ x. x ≢ c)

-- The parts by recursion on the text: an independent description.
abbrev cons_head : ℕ → List Bytes → List Bytes
cons_head x [] = (x ∷ []) ∷ []
cons_head x (p ∷ ps) = (x ∷ p) ∷ ps

pub parts : ℕ → Bytes → List Bytes
parts c [] = [] ∷ []
parts c (x ∷ xs) = let rest = parts c xs in if x == c then [] ∷ rest else cons_head x rest

-- The parts with `c` between them.
unfoldable pub join : ℕ → List Bytes → Bytes
join c [] = []
join c (p ∷ []) = p
join c (p ∷ q ∷ ps) = p ++ c ∷ join c (q ∷ ps)

parts-none : (c : ℕ) (xs : Bytes) → index_of c xs ≡ none → parts c xs ≡ xs ∷ []
unfolding parts
parts-none c [] e = refl
parts-none c (x ∷ xs) e = ground (arith, Option-cases (index_of c xs), parts-none c xs)

parts-some :
    (c : ℕ) (xs : Bytes) (i : ℕ)
    → index_of c xs ≡ some i
    → (parts c xs ≡ take i xs ∷ parts c (drop (suc i) xs)) × (i < length xs)
unfolding parts
parts-some c [] i e = cc
parts-some c (x ∷ xs) zero e = ground (arith, Option-cases (index_of c xs))
parts-some c (x ∷ xs) (suc i) e = ground (arith, Option-cases (index_of c xs), parts-some c xs i)

eq-nil_of_length : (xs : Bytes) → length xs ≡ 0 → xs ≡ []
eq-nil_of_length [] e = refl
eq-nil_of_length (x ∷ xs) e = absurd (omega arith)

abbrev Leaves : Bytes → ℕ → ℕ → Type 0
Leaves s c start = (split_round s c start ≡ leave) × (parts c (drop start s) ≡ drop start s ∷ [])

abbrev Continues : Bytes → ℕ → ℕ → Type 0
Continues s c start =
    (next : ℕ) × (part : Bytes) × (split_round s c start ≡ again next part)
    × (parts c (drop start s) ≡ part ∷ parts c (drop next s))
    × (start < next)
    × (next ≤ length s)

-- A round leaves at the last part, or takes one part off and goes on behind its delimiter.
split_round_cases :
    (s : Bytes) (c start : ℕ) → start ≤ length s → Leaves s c start ⊎ Continues s c start
unfolding split_round
split_round_cases s c start k = elim (Bool-cases (ltb start (length s))) [
  | inr over ↦
      let empty : drop start s ≡ [] = eq-nil_of_length _ (ground (arith, length-drop start s)) in
      inl (rw over, rw empty (unfold parts in refl))
  | inl inside ↦ elim (Option-cases (index_of c (drop start s))) [
    | inl e ↦ inl (rw (inside, e), parts-none c _ e)
    | inr (i, e) ↦
        let (eq, lt) = parts-some c (drop start s) i e in
        inr (
          start + i + 1,
          take i (drop start s),
          ground arith,
          eq
              ∙ ap (λ l. take i (drop start s) ∷ parts c l)
                  (drop-drop start (suc i) _ s (omega arith)),
          omega arith,
          omega (arith, length-drop start s),
        )
  ]
]

-- The loop from a position computes the parts of what lies behind it.
split_loop_lem :
    (fuel : ℕ) (s : Bytes) (c start : ℕ) (ret : List Bytes)
    → length s < fuel + start
    → start ≤ length s
    → split_loop fuel s c start ret ≡ some (ret ++ parts c (drop start s))
unfolding split_loop
split_loop_lem zero s c start ret h k = absurd (omega arith)
split_loop_lem (suc fuel) s c start ret h k = elim (split_round_cases s c start k) [
  | inl (e, p) ↦ rw (e, split_loop, p)
  | inr (next, part, e, p, lt, le) ↦
      rw (e, split_loop, p)
        (split_loop_lem fuel s c next (ret ++ part ∷ []) (omega arith) le
          ∙ ap some (append_assoc ret (part ∷ []) _))
]

cons_head-Lacks :
    (c x : ℕ) (ps : List Bytes) → x ≢ c → All (Lacks c) ps → All (Lacks c) (cons_head x ps)
cons_head-Lacks c x [] n h = ((n, tt), tt)
cons_head-Lacks c x (p ∷ ps) n (hp, hps) = ((n, hp), hps)

parts-Lacks : (c : ℕ) (s : Bytes) → All (Lacks c) (parts c s)
unfolding parts
parts-Lacks c [] = (tt, tt)
parts-Lacks c (x ∷ xs) = ground (arith, cons_head-Lacks c x (parts c xs), parts-Lacks c xs)

cons_head-ne-nil : (x : ℕ) (ps : List Bytes) → cons_head x ps ≢ []
cons_head-ne-nil x [] e = cc
cons_head-ne-nil x (p ∷ ps) e = cc

parts-ne-nil : (c : ℕ) (s : Bytes) → parts c s ≢ []
unfolding parts
parts-ne-nil c [] e = cc
parts-ne-nil c (x ∷ xs) e = ground (arith, cons_head-ne-nil x (parts c xs))

join-cons_head : (c x : ℕ) (ps : List Bytes) → join c (cons_head x ps) ≡ x ∷ join c ps
unfolding join
join-cons_head c x [] = refl
join-cons_head c x (p ∷ []) = refl
join-cons_head c x (p ∷ q ∷ ps) = refl

join-cons : (c : ℕ) (p : Bytes) (ps : List Bytes) → ps ≢ [] → join c (p ∷ ps) ≡ p ++ c ∷ join c ps
unfolding join
join-cons c p [] h = absurd (h refl)
join-cons c p (q ∷ ps) h = refl

join-parts : (c : ℕ) (s : Bytes) → join c (parts c s) ≡ s
unfolding parts
join-parts c [] = unfold join in refl
join-parts c (x ∷ xs) = ground (
  arith,
  join-cons_head c x (parts c xs),
  join-cons c [] (parts c xs) (parts-ne-nil c xs),
  join-parts c xs,
)

parts-append : (c : ℕ) (p rest : Bytes) → Lacks c p → parts c (p ++ c ∷ rest) ≡ p ∷ parts c rest
unfolding parts
parts-append c [] rest h = ground arith
parts-append c (x ∷ xs) rest (hx, hxs) = ground (arith, parts-append c xs rest hxs)

parts-Lacks_self : (c : ℕ) (p : Bytes) → Lacks c p → parts c p ≡ p ∷ []
unfolding parts
parts-Lacks_self c [] h = refl
parts-Lacks_self c (x ∷ xs) (hx, hxs) = ground (arith, parts-Lacks_self c xs hxs)

-- The loop ends on every text, and computes the parts.
pub string_split-parts : (s : Bytes) (c : ℕ) → string_split s c ≡ some (parts c s)
unfolding string_split
string_split-parts s c = split_loop_lem (suc (length s)) s c 0 [] (omega arith) (omega arith)

-- On every text and delimiter the loop of `stringSplit` ends within its rounds, one more than the
-- text has bytes. No part holds the delimiter, and the parts with the delimiter between them are the
-- text.
pub string_split_total :
    (s : Bytes) (c : ℕ)
    → (ps : List Bytes) × (string_split s c ≡ some ps) × All (Lacks c) ps × (join c ps ≡ s)
string_split_total s c = (parts c s, string_split-parts s c, parts-Lacks c s, join-parts c s)

parts-join_lem : (c : ℕ) (ps : List Bytes) → ps ≢ [] → All (Lacks c) ps → parts c (join c ps) ≡ ps
unfolding join
parts-join_lem c [] n h = absurd (n refl)
parts-join_lem c (p ∷ []) n (hp, _) = parts-Lacks_self c p hp
parts-join_lem c (p ∷ q ∷ ps) n (hp, hps) =
    parts-append c p _ hp ∙ ap (λ l. p ∷ l) (parts-join_lem c (q ∷ ps) (λ e. cc) hps)

-- Splitting a join gives the parts back, if there is a part and none holds the delimiter.
pub string_split-join :
    (ps : List Bytes) (c : ℕ) → ps ≢ [] → All (Lacks c) ps → string_split (join c ps) c ≡ some ps
string_split-join ps c n h = string_split-parts (join c ps) c ∙ ap some (parts-join_lem c ps n h)
