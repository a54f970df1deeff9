-- ===== src/Ssl/Candidates.antt =====
-- The paths that ssl.cc tries, in their order.
use mathlib.Core.Path.{fun_ext, ap₂}
use sponsoryeet.Prelude.{
  ◌≡◌, refl, sym, ap, ◌∙◌, Bool, true, false, not, if◌then◌else◌, Option, none, some, Bool-cases,
  inl, inr, List, [], ◌∷◌, ◌++◌, map, Bytes, codes,
}
use sponsoryeet.Ssl.{
  Linker, Loader, Loading, or_else, attempt_open, libs, dirs, attempt_manual, attempt_existing,
  try_files, try_dirs, initialize,
}

-- Neither the current directory nor `/usr/local/lib/` is among the directories.
abbrev pub candidates : List Bytes
candidates =
    codes "/usr/lib/libssl.so"
    ∷ codes "/usr/lib/libgnutls-openssl.so"
    ∷ codes ".//usr/local/lib/libssl.so"
    ∷ codes ".//usr/local/lib/libgnutls-openssl.so"
    ∷ codes "/usr/local/openssl/lib/libssl.so"
    ∷ codes "/usr/local/openssl/lib/libgnutls-openssl.so"
    ∷ codes "/usr/local/ssl/lib/libssl.so"
    ∷ codes "/usr/local/ssl/lib/libgnutls-openssl.so"
    ∷ codes "/opt/openssl/lib/libssl.so"
    ∷ codes "/opt/openssl/lib/libgnutls-openssl.so"
    ∷ codes "/lib/libssl.so"
    ∷ codes "/lib/libgnutls-openssl.so"
    ∷ []

abbrev paths : List Bytes → List Bytes
paths [] = []
paths (dir ∷ rest) = map (λ file. dir ++ file) libs ++ paths rest

module _ {W : Type 0} (linker : Linker W) where
  -- The paths one after the other, up to the first that exists and can be loaded: a path that does not
  -- exist is not loaded, and behind one that has been loaded nothing is called.
  pub attempt_first : List Bytes → Loader W → Bool × Loader W
  attempt_first [] s = (false, s)
  attempt_first (path ∷ rest) s =
      let (there, w) = linker.exists path s.world in
      let looked : Loader W = record s { world = w } in
      let (opened, tried) = attempt_open linker path looked in
      let later = attempt_first rest in
      if not there then later looked else if opened then (true, tried) else later tried

  attempt_first-cons :
      (path : Bytes) (rest : List Bytes)
      → attempt_first (path ∷ rest) ≡ or_else (attempt_existing linker path) (attempt_first rest)
  unfolding attempt_first attempt_existing
  attempt_first-cons path rest = fun_ext λ s.
      let (there, w) = linker.exists path s.world in
      let opened = (attempt_open linker path (record s { world = w })).0 in
      elim (Bool-cases there) [
        | inl e ↦ elim (Bool-cases opened) [ inl f ↦ rw (e, f) refl | inr f ↦ rw (e, f) refl ]
        | inr e ↦ rw e refl
      ]

  -- The path of the environment first, if there is one, and then the candidates.
  pub path_first : Option Bytes → Loader W → Bool × Loader W
  path_first none s = attempt_first candidates s
  path_first (some file) s =
      let (opened, tried) = attempt_open linker file s in
      if opened then (true, tried) else attempt_first candidates tried

  abbrev pub in_order : Loader W → Bool × Loader W
  in_order s =
      let (path, w) = linker.getenv (codes "SPONSORYEET_SSL_LIB") s.world in
      path_first path (record s { world = w })

  or_else_assoc : (x y z : Loading W Bool) → or_else (or_else x y) z ≡ or_else x (or_else y z)
  or_else_assoc x y z =
      fun_ext λ s. elim (Bool-cases (x s).0) [ inl e ↦ rw e refl | inr e ↦ rw e refl ]

  attempt_first-append :
      (xs ys : List Bytes)
      → attempt_first (xs ++ ys) ≡ or_else (attempt_first xs) (attempt_first ys)
  unfolding attempt_first
  attempt_first-append [] ys = refl
  attempt_first-append (x ∷ xs) ys =
      attempt_first-cons x (xs ++ ys)
      ∙ ap (or_else (attempt_existing linker x)) (attempt_first-append xs ys)
      ∙ sym (or_else_assoc (attempt_existing linker x) (attempt_first xs) (attempt_first ys))
      ∙ ap (λ first. or_else first (attempt_first ys)) (sym (attempt_first-cons x xs))

  try_files-first :
      (dir : Bytes) (files : List Bytes)
      → try_files linker dir files ≡ attempt_first (map (λ file. dir ++ file) files)
  unfolding attempt_first try_files
  try_files-first dir [] = refl
  try_files-first dir (file ∷ rest) =
      ap (or_else (attempt_existing linker (dir ++ file))) (try_files-first dir rest)
      ∙ sym (attempt_first-cons (dir ++ file) (map (λ f. dir ++ f) rest))

  try_dirs-first :
      (some_dirs : List Bytes) → try_dirs linker some_dirs ≡ attempt_first (paths some_dirs)
  unfolding attempt_first try_dirs
  try_dirs-first [] = refl
  try_dirs-first (dir ∷ rest) =
      let files = map (λ file. dir ++ file) libs in
      ap₂ or_else (try_files-first dir libs) (try_dirs-first rest)
      ∙ sym (attempt_first-append files (paths rest))

  manual-path_first :
      (path : Option Bytes) (s : Loader W)
      → or_else (attempt_manual linker path) (try_dirs linker dirs) s ≡ path_first path s
  unfolding path_first attempt_manual
  manual-path_first none s = ap (λ f. f s) (try_dirs-first dirs)
  manual-path_first (some file) s =
      let (opened, tried) = attempt_open linker file s in
      elim (Bool-cases opened) [
        | inl f ↦ rw f refl
        | inr f ↦ rw f (ap (λ g. g tried) (try_dirs-first dirs))
      ]

  -- Whatever the environment and the file system hold, `initialize` tries the path of the environment, if
  -- there is one, and then the twelve paths `candidates` in their order, each only if it exists; it is over
  -- with the first that can be loaded, behind which nothing is called, and it fails if there is none.
  pub initialize-candidates : (s : Loader W) → initialize linker s ≡ in_order s
  unfolding initialize
  initialize-candidates s =
      let (path, w) = linker.getenv (codes "SPONSORYEET_SSL_LIB") s.world in
      manual-path_first path (record s { world = w })
