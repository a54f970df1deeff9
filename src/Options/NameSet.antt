-- ===== src/Options/NameSet.antt =====
-- The set of categories of main.cc, as a set: order and repetition do not count.
use mathlib.Core.Path.{ap₂}
use mathlib.Core.Quot
use mathlib.Core.Quot.{Quot, Quot-set}
use sponsoryeet.Prelude.{
  ◌≡◌, ◌↔◌, refl, sym, ap, ◌∙◌, subst, Bool, true, false, ◌||◌, Bool-cases, inl, inr, List, [], ◌∷◌,
  ◌++◌, map, some, codes, All, Bytes, bytes_eq, bytes_eq_refl, bytes_eq→eq,
}
use sponsoryeet.State.{Globals}
use sponsoryeet.Options.{parse_arg, bytes_lt, insert, insert_all, contains}
use sponsoryeet.Options.CategorySet.{
  less, equal, greater, compare_bytes, bytes_lt_irrefl, IsSorted, contains-insert, All-below,
  insert_all-IsSorted,
}

-- Two lists hold the same texts.
abbrev pub SameNames : List Bytes → List Bytes → Type 0
SameNames xs ys = (t : Bytes) → contains xs t ≡ contains ys t

abbrev pub NameSet : Type 0
NameSet = Quot SameNames

abbrev pub set_of : List Bytes → NameSet
set_of xs = Quot.mk xs

has : Bytes → NameSet → Bool
has t = Quot.lift (hlevel) (λ xs. contains xs t) (λ xs ys h. h t)

-- A text more.
pub add : Bytes → NameSet → NameSet
add x =
    Quot.lift Quot-set (λ xs. Quot.mk (x ∷ xs))
      (λ xs ys h. Quot.sound (λ t. ap (λ b. bytes_eq x t || b) (h t)))

-- These names more.
abbrev pub add_all : List Bytes → NameSet → NameSet
add_all [] set = set
add_all (name ∷ rest) set = add_all rest (add name set)

-- The flag of a name.
abbrev pub dashed : Bytes → Bytes
dashed name = codes "--" ++ name

set_of-insert : (x : Bytes) (l : List Bytes) → set_of (insert x l) ≡ add x (set_of l)
unfolding add
set_of-insert x l = Quot.sound (contains-insert x l)

set_of-insert_all :
    (names l : List Bytes) → set_of (insert_all (map dashed names) l) ≡ add_all names (set_of l)
unfolding insert_all
set_of-insert_all [] l = refl
set_of-insert_all (name ∷ rest) l =
    set_of-insert_all rest (insert name l) ∙ ap (add_all rest) (set_of-insert name l)

same_names : (xs ys : List Bytes) → set_of xs ≡ set_of ys → SameNames xs ys
unfolding has
same_names xs ys e t = ap (has t) e

-- A text below all others is not among them.
contains-below :
    (x : Bytes) (l : List Bytes) → All (λ y. bytes_lt x y ≡ true) l → contains l x ≡ false
contains-below x [] h = refl
contains-below x (y ∷ ys) (h, hs) = elim (Bool-cases (bytes_eq y x)) [
  | inl e ↦ cc (subst (λ z. bytes_lt x z ≡ true) (bytes_eq→eq y x e) h, bytes_lt_irrefl x)
  | inr e ↦ rw (e, contains-below x ys hs) refl
]

contains_first : (x : Bytes) (l : List Bytes) → contains (x ∷ l) x ≡ true
contains_first x l = rw (bytes_eq_refl x) refl

-- A text below the first of a list in order is not in it.
contains-IsSorted :
    (x y : Bytes) (l : List Bytes)
    → bytes_lt x y ≡ true
    → IsSorted (y ∷ l)
    → contains (y ∷ l) x ≡ false
contains-IsSorted x y l h (below, sorted) = contains-below x (y ∷ l) (h, All-below x y l h below)

SameNames-tail :
    (x : Bytes) (xs ys : List Bytes)
    → IsSorted (x ∷ xs)
    → IsSorted (x ∷ ys)
    → SameNames (x ∷ xs) (x ∷ ys)
    → SameNames xs ys
SameNames-tail x xs ys (below, _) (below', _) h t = elim (Bool-cases (bytes_eq x t)) [
  | inl e ↦
      let same = bytes_eq→eq x t e in
      subst (λ z. contains xs z ≡ contains ys z) same
        (contains-below x xs below ∙ sym (contains-below x ys below'))
  | inr e ↦ rw e at (h t)
]

-- There is one list in order for a set.
sorted_unique : (xs ys : List Bytes) → IsSorted xs → IsSorted ys → SameNames xs ys → xs ≡ ys
sorted_unique [] [] p q h = refl
sorted_unique [] (y ∷ ys) p q h = cc (h y, contains_first y ys)
sorted_unique (x ∷ xs) [] p q h = cc (h x, contains_first x xs)
sorted_unique (x ∷ xs) (y ∷ ys) p q h = elim (compare_bytes x y) [
  | less l _ ↦ cc (h x, contains_first x xs, contains-IsSorted x y ys l q)
  | greater l _ ↦ cc (h y, contains_first y ys, contains-IsSorted y x xs l p)
  | equal e ↦
      let q' = subst (λ z. IsSorted (z ∷ ys)) (sym e) q in
      let h' = subst (λ z. SameNames (x ∷ xs) (z ∷ ys)) (sym e) h in
      ap₂ ◌∷◌ e (sorted_unique xs ys p.1 q.1 (SameNames-tail x xs ys p q' h'))
]

-- Let the keys of the hash map be the names of categories behind two dashes, in any order and with
-- repetitions, and the categories be in strict order. Then the argument `--all-categories` is accepted and
-- changes the categories alone; they stay in strict order, and a list in strict order stands for the set
-- of the old categories with all the names added, where neither order nor repetition counts, exactly if
-- it is the list of the new categories.
pub parse_arg-NameSet :
    {D : Type 0} (names : List Bytes) (g : Globals D) (other : List Bytes)
    → IsSorted g.categories
    → IsSorted other
    → (set : List Bytes) × (parse_arg (map dashed names) (codes "--all-categories") g
        ≡ some (record g { categories = set }))
      × IsSorted set
      × ((set_of other ≡ add_all names (set_of g.categories)) ↔ (other ≡ set))
unfolding parse_arg
parse_arg-NameSet names g other h k =
    let set = insert_all (map dashed names) g.categories in
    let added = set_of-insert_all names g.categories in
    let sorted = (insert_all-IsSorted (map dashed names) g.categories [] h).0 in
    (
      set,
      refl,
      sorted,
      (
        λ e. sorted_unique other set k sorted (same_names other set (e ∙ sym added)),
        λ e. ap set_of e ∙ added,
      ),
    )
