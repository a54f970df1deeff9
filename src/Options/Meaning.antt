-- ===== src/Options/Meaning.antt =====
-- The arguments of main.cc against a closed form.
use mathlib.Core.Path.{fun_ext}
use sponsoryeet.Prelude.{
  ◌≡◌, refl, sym, ap, ◌∙◌, Bool, true, false, not, Bool-cases, inl, inr, ◌||◌, Option, none, some,
  List, [], ◌∷◌, ◌++◌, if◌then◌else◌, Bytes, codes, bytes_eq, bytes_eq→eq, subst,
}
use sponsoryeet.State.{Globals}
use sponsoryeet.Options.{
  bind, insert, insert_all, contains, category_flags, category_name, parse_arg, parse_args,
}

abbrev pub asks_verbose : Bytes → Bool
asks_verbose arg = bytes_eq arg (codes "-v") || bytes_eq arg (codes "--verbose")

abbrev pub asks_all : Bytes → Bool
asks_all arg = bytes_eq arg (codes "--all-categories")

abbrev pub asks_adblock : Bytes → Bool
asks_adblock arg = bytes_eq arg (codes "-a") || bytes_eq arg (codes "--adblock")

abbrev pub some_of : (Bytes → Bool) → List Bytes → Bool
some_of test [] = false
some_of test (arg ∷ rest) = test arg || some_of test rest

abbrev pub is_unknown : Bytes → Bool
is_unknown arg =
    not (asks_verbose arg || (asks_all arg || (asks_adblock arg || contains category_flags arg)))

-- The flags of the categories that are asked for.
abbrev pub chosen : List Bytes → List Bytes → List Bytes
chosen order [] = []
chosen order (arg ∷ rest) =
    if asks_all arg
    then order ++ chosen order rest
    else if contains category_flags arg
    then arg ∷ chosen order rest
    else chosen order rest

or_true : (b : Bool) → (b || true) ≡ true
or_true true = refl
or_true false = refl

-- A text that is one of two.
either_text :
    (P : Bytes → Type 0) (arg a b : Bytes)
    → P a
    → P b
    → (bytes_eq arg a || bytes_eq arg b) ≡ true
    → P arg
either_text P arg a b p q h = elim (Bool-cases (bytes_eq arg a)) [
  | inl e ↦ subst P (sym (bytes_eq→eq arg a e)) p
  | inr e ↦ subst P (sym (bytes_eq→eq arg b (rw e at h))) q
]

-- No text asks for two things.
verbose_only :
    (arg : Bytes)
    → asks_verbose arg ≡ true
    → (asks_all arg ≡ false) × (asks_adblock arg ≡ false) × (contains category_flags arg ≡ false)
verbose_only arg =
    either_text
      (λ x. (asks_all x ≡ false) × (asks_adblock x ≡ false) × (contains category_flags x ≡ false))
      arg (codes "-v") (codes "--verbose") (refl, refl, refl) (refl, refl, refl)

all_only :
    (arg : Bytes) → asks_all arg ≡ true → (asks_verbose arg ≡ false) × (asks_adblock arg ≡ false)
all_only arg h =
    subst (λ x. (asks_verbose x ≡ false) × (asks_adblock x ≡ false))
      (sym (bytes_eq→eq arg (codes "--all-categories") h)) (refl, refl)

adblock_only : (arg : Bytes) → asks_adblock arg ≡ true → contains category_flags arg ≡ false
adblock_only arg =
    either_text (λ x. contains category_flags x ≡ false) arg (codes "-a") (codes "--adblock") refl
      refl

insert_all-append :
    (xs ys l : List Bytes) → insert_all (xs ++ ys) l ≡ insert_all ys (insert_all xs l)
unfolding insert_all
insert_all-append [] ys l = refl
insert_all-append (x ∷ xs) ys l = insert_all-append xs ys (insert (category_name x) l)

module _ {D : Type 0} (order : List Bytes) where
  abbrev pub settled : List Bytes → Globals D → Option (Globals D)
  settled args g =
      if some_of is_unknown args
      then none
      else some (record g {
        verbose = some_of asks_verbose args || g.verbose;
        adblock = some_of asks_adblock args || g.adblock;
        categories = insert_all (chosen order args) g.categories;
      })

  settled-cons :
      (arg : Bytes) (rest : List Bytes) (g : Globals D)
      → bind (parse_arg order arg g) (settled rest) ≡ settled (arg ∷ rest) g
  unfolding parse_arg insert_all
  settled-cons arg rest g = elim (Bool-cases (asks_verbose arg)) [
    | inl v ↦
        let (a, b, c) = verbose_only arg v in
        rw (v, a, b, c, or_true (some_of asks_verbose rest)) refl
    | inr v ↦ elim (Bool-cases (asks_all arg)) [
      | inl a ↦
          let (_, b) = all_only arg a in
          rw (v, a, b, insert_all-append order (chosen order rest) g.categories) refl
      | inr a ↦ elim (Bool-cases (asks_adblock arg)) [
        | inl b ↦ rw (v, a, b, adblock_only arg b, or_true (some_of asks_adblock rest)) refl
        | inr b ↦ elim (Bool-cases (contains category_flags arg)) [
          | inl c ↦ rw (v, a, b, c) refl
          | inr c ↦ rw (v, a, b, c) refl
        ]
      ]
    ]
  ]

  -- The loop over the arguments, in closed form: with an argument that is none of the options and no
  -- category's flag, the usage text. Else a variable is set if one of its two spellings is there
  -- or it was set before, the categories of all flags are added, every category where all are asked
  -- for, and no other variable changes.
  pub parse_args-eq-settled :
      (args : List Bytes) (g : Globals D) → parse_args order args g ≡ settled args g
  unfolding parse_args insert_all
  parse_args-eq-settled [] g = refl
  parse_args-eq-settled (arg ∷ rest) g =
      ap (bind (parse_arg order arg g)) (fun_ext (parse_args-eq-settled rest))
      ∙ settled-cons arg rest g
