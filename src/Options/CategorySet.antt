-- ===== src/Options/CategorySet.antt =====
-- The order on strings and the set of main.cc that is kept in it.
use mathlib.Core.List.{Permᴰ}
use sponsoryeet.Prelude.{
  ◌≡◌, inl, inr, refl, sym, ap, ◌∙◌, subst, true, false, Bool-cases, ◌||◌, List, [], ◌∷◌, map, All,
  Bytes, bytes_eq, arith,
}
use sponsoryeet.Options.{bytes_lt, insert, insert_all, contains, category_name}

bytes_lt_asymm : (xs ys : Bytes) → bytes_lt xs ys ≡ true → bytes_lt ys xs ≡ false
unfolding bytes_lt
bytes_lt_asymm [] [] h = cc
bytes_lt_asymm [] (y ∷ ys) h = refl
bytes_lt_asymm (x ∷ xs) [] h = cc
bytes_lt_asymm (x ∷ xs) (y ∷ ys) h = ground (arith, bytes_lt_asymm xs ys)

pub bytes_lt_irrefl : (xs : Bytes) → bytes_lt xs xs ≡ false
unfolding bytes_lt
bytes_lt_irrefl [] = refl
bytes_lt_irrefl (x ∷ xs) = ground (arith, bytes_lt_irrefl xs)

pub bytes_lt_trans :
    (xs ys zs : Bytes) → bytes_lt xs ys ≡ true → bytes_lt ys zs ≡ true → bytes_lt xs zs ≡ true
unfolding bytes_lt
bytes_lt_trans [] [] zs h k = cc
bytes_lt_trans [] (y ∷ ys) [] h k = cc
bytes_lt_trans [] (y ∷ ys) (z ∷ zs) h k = refl
bytes_lt_trans (x ∷ xs) [] zs h k = cc
bytes_lt_trans (x ∷ xs) (y ∷ ys) [] h k = cc
bytes_lt_trans (x ∷ xs) (y ∷ ys) (z ∷ zs) h k = ground (arith, bytes_lt_trans xs ys zs)

-- Two texts are in order, equal, or in the other order, and only one of these.
pub data Compared (x y : Bytes) : Type 0 where
  less : bytes_lt x y ≡ true → bytes_lt y x ≡ false → Compared x y
  equal : x ≡ y → Compared x y
  greater : bytes_lt y x ≡ true → bytes_lt x y ≡ false → Compared x y

bytes_lt_connected : (xs ys : Bytes) → bytes_lt xs ys ≡ false → bytes_lt ys xs ≡ false → xs ≡ ys
unfolding bytes_lt
bytes_lt_connected [] [] h k = refl
bytes_lt_connected [] (y ∷ ys) h k = cc
bytes_lt_connected (x ∷ xs) [] h k = cc
bytes_lt_connected (x ∷ xs) (y ∷ ys) h k = ground (arith, bytes_lt_connected xs ys)

pub compare_bytes : (x y : Bytes) → Compared x y
compare_bytes x y = elim (Bool-cases (bytes_lt x y)) [
  | inl h ↦ less h (bytes_lt_asymm x y h)
  | inr h ↦ elim (Bool-cases (bytes_lt y x)) [
    | inl k ↦ greater k h
    | inr k ↦ equal (bytes_lt_connected x y h k)
  ]
]

insert-nil : (x : Bytes) → insert x [] ≡ x ∷ []
unfolding insert
insert-nil x = refl

insert-less : (x y : Bytes) (ys : List Bytes) → bytes_lt x y ≡ true → insert x (y ∷ ys) ≡ x ∷ y ∷ ys
unfolding insert
insert-less x y ys h = rw h

insert-greater :
    (x y : Bytes) (ys : List Bytes) → bytes_lt y x ≡ true → insert x (y ∷ ys) ≡ y ∷ insert x ys
unfolding insert
insert-greater x y ys h = rw (bytes_lt_asymm y x h, h)

insert_self : (x : Bytes) (ys : List Bytes) → insert x (x ∷ ys) ≡ x ∷ ys
unfolding insert
insert_self x ys = rw (bytes_lt_irrefl x)

insert_comm_less :
    (x y : Bytes) (l : List Bytes)
    → bytes_lt x y ≡ true
    → insert x (insert y l) ≡ insert y (insert x l)
insert_comm_less x y [] h = simp (insert-nil, insert-less x y [] h, insert-greater y x [] h)
insert_comm_less x y (z ∷ r) h = elim (compare_bytes y z) [
  | less k _ ↦
      let l = bytes_lt_trans x y z h k in
      simp (
        insert-less y z r k,
        insert-less x y (z ∷ r) h,
        insert-less x z r l,
        insert-greater y x (z ∷ r) h,
      )
  | equal e ↦
      let l = subst (λ t. bytes_lt x t ≡ true) e h in
      let same = subst (λ t. insert t (z ∷ r) ≡ z ∷ r) (sym e) (insert_self z r) in
      simp (same, insert-less x z r l, insert-greater y x (z ∷ r) h)
  | greater k _ ↦ elim (compare_bytes x z) [
    | less l _ ↦ simp (
      insert-greater y z r k,
      insert-less x z (insert y r) l,
      insert-less x z r l,
      insert-greater y x (z ∷ r) h,
    )
    | equal e ↦
        let first = subst (λ t. insert t (z ∷ r) ≡ z ∷ r) (sym e) (insert_self z r) in
        let second =
          subst (λ t. insert t (z ∷ insert y r) ≡ z ∷ insert y r) (sym e)
            (insert_self z (insert y r)) in
        simp (insert-greater y z r k, first, second)
    | greater l _ ↦ simp (
      insert-greater y z r k,
      insert-greater x z r l,
      insert-greater x z (insert y r) l,
      insert-greater y z (insert x r) k,
      insert_comm_less x y r h,
    )
  ]
]

-- The order of two insertions does not matter.
pub insert_comm : (x y : Bytes) (l : List Bytes) → insert x (insert y l) ≡ insert y (insert x l)
insert_comm x y l = elim (compare_bytes x y) [
  | less h _ ↦ insert_comm_less x y l h
  | equal e ↦ rw e
  | greater h _ ↦ sym (insert_comm_less y x l h)
]

pub insert-insert_all :
    (x : Bytes) (flags l : List Bytes)
    → insert x (insert_all flags l) ≡ insert_all flags (insert x l)
unfolding insert_all
insert-insert_all x [] l = refl
insert-insert_all x (flag ∷ rest) l =
    insert-insert_all x rest (insert (category_name flag) l)
    ∙ ap (insert_all rest) (insert_comm x (category_name flag) l)

pub insert_all_comm :
    (xs ys l : List Bytes) → insert_all xs (insert_all ys l) ≡ insert_all ys (insert_all xs l)
unfolding insert_all
insert_all_comm [] ys l = refl
insert_all_comm (x ∷ xs) ys l =
    ap (insert_all xs) (insert-insert_all (category_name x) ys l)
    ∙ insert_all_comm xs ys (insert (category_name x) l)

pub insert_all-perm :
    {xs ys : List Bytes} (l : List Bytes) → Permᴰ xs ys → insert_all xs l ≡ insert_all ys l
unfolding insert_all
insert_all-perm l Permᴰ.nil = refl
insert_all-perm l (Permᴰ.cons {a} {b} {l₁} {l₂} e p) =
    ap (λ x. insert_all l₁ (insert (category_name x) l)) e
    ∙ insert_all-perm (insert (category_name b) l) p
insert_all-perm l (Permᴰ.swap {a} {b} {a' = c} {b' = d} {l = r} e f) = ap (insert_all r) (
    insert_comm (category_name b) (category_name a) l
    ∙ ap (λ x. insert (category_name x) (insert (category_name b) l)) e
    ∙ ap (λ x. insert (category_name d) (insert (category_name x) l)) f)
insert_all-perm l (Permᴰ.trans p q) = insert_all-perm l p ∙ insert_all-perm l q

-- In strict order, so that nothing is there twice.
abbrev pub IsSorted : List Bytes → Type 0
IsSorted [] = Unit
IsSorted (x ∷ xs) = All (λ y. bytes_lt x y ≡ true) xs × IsSorted xs

All-insert : (P : Bytes → Type 0) (x : Bytes) (l : List Bytes) → P x → All P l → All P (insert x l)
All-insert P x [] p h = rw (insert-nil x) (p, tt)
All-insert P x (y ∷ ys) p (q, h) = elim (compare_bytes x y) [
  | less l _ ↦ rw (insert-less x y ys l) (p, (q, h))
  | equal e ↦ rw (e, insert_self y ys) (q, h)
  | greater l _ ↦ rw (insert-greater x y ys l) (q, All-insert P x ys p h)
]

pub All-below :
    (x y : Bytes) (l : List Bytes)
    → bytes_lt x y ≡ true
    → All (λ z. bytes_lt y z ≡ true) l
    → All (λ z. bytes_lt x z ≡ true) l
All-below x y [] h k = tt
All-below x y (z ∷ l) h (k, ks) = (bytes_lt_trans x y z h k, All-below x y l h ks)

pub insert-IsSorted : (x : Bytes) (l : List Bytes) → IsSorted l → IsSorted (insert x l)
insert-IsSorted x [] h = rw (insert-nil x) (tt, tt)
insert-IsSorted x (y ∷ ys) (h, k) = elim (compare_bytes x y) [
  | less l _ ↦ rw (insert-less x y ys l) ((l, All-below x y ys l h), (h, k))
  | equal e ↦ rw (e, insert_self y ys) (h, k)
  | greater l _ ↦
      rw (insert-greater x y ys l)
        (All-insert (λ z. bytes_lt y z ≡ true) x ys l h, insert-IsSorted x ys k)
]

-- What is in the set after an insertion.
pub contains-insert :
    (x : Bytes) (l : List Bytes) (t : Bytes)
    → contains (insert x l) t ≡ (bytes_eq x t || contains l t)
contains-insert x [] t = rw (insert-nil x)
contains-insert x (y ∷ ys) t = elim (compare_bytes x y) [
  | less l _ ↦ rw (insert-less x y ys l)
  | equal e ↦ rw (e, insert_self y ys) (ground arith)
  | greater l _ ↦ rw (insert-greater x y ys l) (ground (arith, contains-insert x ys t))
]

-- Inserting the names of flags into a set in strict order leaves one in strict order, which holds
-- exactly the texts that it held and those names.
pub insert_all-IsSorted :
    (flags l : List Bytes) (t : Bytes)
    → IsSorted l
    → IsSorted (insert_all flags l)
      × (contains (insert_all flags l) t ≡ (contains (map category_name flags) t || contains l t))
unfolding insert_all
insert_all-IsSorted [] l t h = (h, refl)
insert_all-IsSorted (flag ∷ rest) l t h =
    let name = category_name flag in
    let (sorted, holds) = insert_all-IsSorted rest (insert name l) t (insert-IsSorted name l h) in
    let one = contains-insert name l t in
    (sorted, holds ∙ ap (λ b. contains (map category_name rest) t || b) one ∙ ground arith)
