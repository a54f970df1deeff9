-- ===== src/Options.antt =====
-- The options of main.cc, and the set of categories that they choose. The usage text is left out.
pub mod CategorySet
pub mod AnyOrder
pub mod Meaning
pub mod NameSet
use sponsoryeet.Prelude.{
  ℕ, Bool, true, false, ◌||◌, Option, none, some, List, [], ◌∷◌, if◌then◌else◌, drop, ltb, Bytes,
  codes, bytes_eq,
}
use sponsoryeet.State.{Globals}

-- `a < b` of two strings, byte by byte.
unfoldable pub bytes_lt : Bytes → Bytes → Bool
bytes_lt [] [] = false
bytes_lt [] (y ∷ ys) = true
bytes_lt (x ∷ xs) [] = false
bytes_lt (x ∷ xs) (y ∷ ys) = if ltb x y then true else if ltb y x then false else bytes_lt xs ys

-- `insert` of a `std::set<std::string>`, which is kept in order.
unfoldable pub insert : Bytes → List Bytes → List Bytes
unfolding bytes_lt
insert x [] = x ∷ []
insert x (y ∷ ys) =
    let later = insert x ys in
    if bytes_lt x y then x ∷ y ∷ ys else if bytes_lt y x then y ∷ later else y ∷ ys

-- The keys of `categories`, as they stand in the source.
abbrev pub category_flags : List Bytes
category_flags =
    codes "--sponsor"
    ∷ codes "--selfpromo"
    ∷ codes "--interaction"
    ∷ codes "--intro"
    ∷ codes "--outro"
    ∷ codes "--preview"
    ∷ codes "--music_offtopic"
    ∷ []

-- `categories.count(arg)`.
abbrev pub contains : List Bytes → Bytes → Bool
contains [] text = false
contains (x ∷ xs) text = bytes_eq x text || contains xs text

-- A flag without its dashes.
abbrev pub category_name : Bytes → Bytes
category_name = drop 2

pub insert_all : List Bytes → List Bytes → List Bytes
insert_all [] set = set
insert_all (flag ∷ rest) set = insert_all rest (insert (category_name flag) set)

-- What follows, unless the program has ended.
abbrev pub bind : {A : Type 0} → Option A → (A → Option A) → Option A
bind none f = none
bind (some a) f = f a

module _ {D : Type 0} where
  -- One argument; `none` is the exit with the usage text. `order` is the order in which the hash map
  -- `categories` hands out its keys.
  pub parse_arg : List Bytes → Bytes → Globals D → Option (Globals D)
  parse_arg order arg g =
      if bytes_eq arg (codes "-v") || bytes_eq arg (codes "--verbose")
      then some (record g { verbose = true })
      else if bytes_eq arg (codes "--all-categories")
      then some (record g { categories = insert_all order g.categories })
      else if bytes_eq arg (codes "-a") || bytes_eq arg (codes "--adblock")
      then some (record g { adblock = true })
      else if contains category_flags arg
      then some (record g { categories = insert (category_name arg) g.categories })
      else none

  unfoldable pub parse_args : List Bytes → List Bytes → Globals D → Option (Globals D)
  unfolding parse_arg
  parse_args order [] g = some g
  parse_args order (arg ∷ rest) g = bind (parse_arg order arg g) (parse_args order rest)
