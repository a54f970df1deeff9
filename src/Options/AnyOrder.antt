-- ===== src/Options/AnyOrder.antt =====
-- What the arguments of main.cc do, in whichever order they stand.
use mathlib.Core.Path.{fun_ext, ap₂}
use mathlib.Core.List.{Permᴰ}
use sponsoryeet.Prelude.{
  ◌≡◌, refl, sym, ap, ◌∙◌, Bool, true, false, ◌||◌, Option, none, some, List, [], ◌∷◌,
  if◌then◌else◌, Bytes, codes, bytes_eq,
}
use sponsoryeet.State.{Globals}
use sponsoryeet.Options.{
  bind, insert, insert_all, contains, category_flags, category_name, parse_arg, parse_args,
}
use sponsoryeet.Options.CategorySet.{insert_comm, insert-insert_all, insert_all-perm}

-- What an argument asks for.
data Meaning : Type 0 where
  verbosity all_categories adblocking category unknown : Meaning

abbrev meaning : Bytes → Meaning
meaning arg =
    if bytes_eq arg (codes "-v") || bytes_eq arg (codes "--verbose")
    then verbosity
    else if bytes_eq arg (codes "--all-categories")
    then all_categories
    else if bytes_eq arg (codes "-a") || bytes_eq arg (codes "--adblock")
    then adblocking
    else if contains category_flags arg
    then category
    else unknown

module _ {D : Type 0} where
  apply : List Bytes → Meaning → Bytes → Globals D → Option (Globals D)
  apply order verbosity arg g = some (record g { verbose = true })
  apply order all_categories arg g = some (record g { categories = insert_all order g.categories })
  apply order adblocking arg g = some (record g { adblock = true })
  apply order category arg g =
      some (record g { categories = insert (category_name arg) g.categories })
  apply order unknown arg g = none

  apply_chosen :
      (order : List Bytes) (arg : Bytes) (g : Globals D) (a b c d : Bool)
      → apply order
          (if a
            then verbosity
            else if b
            then all_categories
            else if c
            then adblocking
            else if d
            then category
            else unknown)
          arg
          g
        ≡ (if a
            then some (record g { verbose = true })
            else if b
            then some (record g { categories = insert_all order g.categories })
            else if c
            then some (record g { adblock = true })
            else if d
            then some (record g { categories = insert (category_name arg) g.categories })
            else none)
  unfolding apply
  apply_chosen order arg g true b c d = refl
  apply_chosen order arg g false true c d = refl
  apply_chosen order arg g false false true d = refl
  apply_chosen order arg g false false false true = refl
  apply_chosen order arg g false false false false = refl

  parse_arg-apply :
      (order : List Bytes) (arg : Bytes) (g : Globals D)
      → parse_arg order arg g ≡ apply order (meaning arg) arg g
  unfolding parse_arg
  parse_arg-apply order arg g = sym (apply_chosen order arg g _ _ _ _)

  abbrev apply_both :
      List Bytes → Meaning → Bytes → Meaning → Bytes → Globals D → Option (Globals D)
  apply_both order m a n b g = bind (apply order m a g) (apply order n b)

  apply_both_comm :
      (order : List Bytes) (m : Meaning) (a : Bytes) (n : Meaning) (b : Bytes) (g : Globals D)
      → apply_both order m a n b g ≡ apply_both order n b m a g
  unfolding apply
  apply_both_comm order all_categories a category b g =
      ap (λ c. some (record g { categories = c }))
        (insert-insert_all (category_name b) order g.categories)
  apply_both_comm order category a all_categories b g =
      ap (λ c. some (record g { categories = c }))
        (sym (insert-insert_all (category_name a) order g.categories))
  apply_both_comm order category a category b g =
      ap (λ c. some (record g { categories = c }))
        (insert_comm (category_name b) (category_name a) g.categories)
  apply_both_comm order verbosity a verbosity b g = refl
  apply_both_comm order adblocking a verbosity b g = refl
  apply_both_comm order unknown a verbosity b g = refl
  apply_both_comm order m a n b g = refl

  parse_arg_comm :
      (order : List Bytes) (a b : Bytes) (g : Globals D)
      → bind (parse_arg order a g) (parse_arg order b)
        ≡ bind (parse_arg order b g) (parse_arg order a)
  parse_arg_comm order a b g =
      ap₂ bind (parse_arg-apply order a g) (fun_ext (parse_arg-apply order b))
      ∙ apply_both_comm order (meaning a) a (meaning b) b g
      ∙ sym (ap₂ bind (parse_arg-apply order b g) (fun_ext (parse_arg-apply order a)))

  bind_assoc :
      (o : Option (Globals D)) (f k : Globals D → Option (Globals D))
      → bind o (λ g. bind (f g) k) ≡ bind (bind o f) k
  bind_assoc none f k = refl
  bind_assoc (some g) f k = refl

  args-perm :
      (order : List Bytes) {args args' : List Bytes}
      → Permᴰ args args'
      → (g : Globals D) → parse_args order args g ≡ parse_args order args' g
  unfolding parse_args
  args-perm order Permᴰ.nil g = refl
  args-perm order (Permᴰ.cons {a} {b} {l₁} {l₂} e p) g =
      ap (λ x. bind (parse_arg order x g) (parse_args order l₁)) e
      ∙ ap (bind (parse_arg order b g)) (fun_ext (args-perm order p))
  args-perm order (Permᴰ.swap {a} {b} {a' = c} {b' = d} {l = r} e f) g =
      let rest = parse_args order r in
      bind_assoc (parse_arg order a g) (parse_arg order b) rest
      ∙ ap (λ o. bind o rest)
          (parse_arg_comm order a b g
            ∙ ap₂ (λ x y. bind (parse_arg order x g) (parse_arg order y)) f e)
      ∙ sym (bind_assoc (parse_arg order c g) (parse_arg order d) rest)
  args-perm order (Permᴰ.trans p q) g = args-perm order p g ∙ args-perm order q g

  apply-order :
      {order order' : List Bytes} (m : Meaning) (arg : Bytes) (g : Globals D)
      → Permᴰ order order'
      → apply order m arg g ≡ apply order' m arg g
  unfolding apply
  apply-order verbosity arg g o = refl
  apply-order all_categories arg g o =
      ap (λ c. some (record g { categories = c })) (insert_all-perm g.categories o)
  apply-order adblocking arg g o = refl
  apply-order category arg g o = refl
  apply-order unknown arg g o = refl

  order-perm :
      {order order' : List Bytes} (args : List Bytes) (g : Globals D)
      → Permᴰ order order'
      → parse_args order args g ≡ parse_args order' args g
  unfolding parse_args
  order-perm [] g o = refl
  order-perm {order} {order'} (arg ∷ rest) g o =
      ap₂ bind
        (parse_arg-apply order arg g
          ∙ apply-order (meaning arg) arg g o
          ∙ sym (parse_arg-apply order' arg g))
        (fun_ext λ g'. order-perm rest g' o)

  -- The order of the arguments does not matter, nor the order in which the hash map hands out its
  -- keys: the program ends up with the same variables, or with the usage text in both orders.
  pub parse_args-perm :
      {order order' args args' : List Bytes} (g : Globals D)
      → Permᴰ order order'
      → Permᴰ args args'
      → parse_args order args g ≡ parse_args order' args' g
  parse_args-perm {order'} {args} g o p = order-perm args g o ∙ args-perm order' p g
