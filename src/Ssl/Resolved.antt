-- ===== src/Ssl/Resolved.antt =====
-- What ssl.cc leaves in the pointers that the rest of the program calls through.
use sponsoryeet.Prelude.{
  ℕ, ◌≡◌, ◌≢◌, refl, sym, subst, Bool, true, false, Bool-cases, inl, inr, Option, none, some, List,
  [], ◌∷◌, ◌++◌, Bytes, codes, is_empty, arith,
}
use sponsoryeet.Ssl.{
  Linker, Symbols, null_symbols, Loader, is_set, all_set, libs, dirs, call, resolve_symbols,
  library_init, load, attempt_open, attempt_existing, or_else, attempt_manual, Loading, try_files,
  try_dirs, initialize,
}

-- Every pointer can be called through.
pub record Resolved (s : Symbols) : Type 0 where
  pub ssl_new : s.ssl_new ≢ 0
  pub ssl_ctx_new : s.ssl_ctx_new ≢ 0
  pub tls_client_method : s.tls_client_method ≢ 0
  pub ssl_connect : s.ssl_connect ≢ 0
  pub ssl_get_error : s.ssl_get_error ≢ 0
  pub ssl_read : s.ssl_read ≢ 0
  pub ssl_set_fd : s.ssl_set_fd ≢ 0
  pub ssl_write : s.ssl_write ≢ 0
  pub ssl_ctx_free : s.ssl_ctx_free ≢ 0
  pub ssl_ctx_set_verify : s.ssl_ctx_set_verify ≢ 0
  pub ssl_free : s.ssl_free ≢ 0

-- All pointers or none, by the result.
abbrev pub Settled : Bool → Symbols → Type 0
Settled true s = Resolved s
Settled false s = s ≡ null_symbols

all_set-Resolved : (s : Symbols) → all_set s ≡ true → Resolved s
unfolding all_set
all_set-Resolved s h = ground arith

module _ {W : Type 0} (linker : Linker W) where
  library_init-symbols :
      (handle : ℕ) (s : Loader W) → (library_init linker handle s).1.symbols ≡ s.symbols
  unfolding library_init
  library_init-symbols handle s = ground arith

  load-Settled :
      (handle : ℕ) (s : Loader W)
      → let (success, after) = load linker handle s in Settled success after.symbols
  unfolding load resolve_symbols
  load-Settled handle s =
      let (resolved, r) = resolve_symbols linker handle s in
      let (started, i) = library_init linker handle r in
      let same = library_init-symbols handle r in
      elim (Bool-cases (all_set r.symbols)) [
        | inl e ↦ elim (Bool-cases started) [
          | inl f ↦ rw (e, f) (subst Resolved (sym same) (all_set-Resolved r.symbols e))
          | inr f ↦ rw (e, f) refl
        ]
        | inr e ↦ rw e refl
      ]

  abbrev Settles : Loading W Bool → Type 0
  Settles x = (s : Loader W) → s.symbols ≡ null_symbols → Settled (x s).0 (x s).1.symbols

  or_else-Settles : (x y : Loading W Bool) → Settles x → Settles y → Settles (or_else x y)
  or_else-Settles x y h k s e =
      let first = h s e in
      elim (Bool-cases (x s).0) [
        | inl t ↦ rw t (subst (λ b. Settled b (x s).1.symbols) t first)
        | inr f ↦ rw f (k (x s).1 (subst (λ b. Settled b (x s).1.symbols) f first))
      ]

  attempt_open-Settles : (file : Bytes) → Settles (attempt_open linker file)
  unfolding attempt_open
  attempt_open-Settles file s h = elim (Bool-cases (is_empty file)) [
    | inl e ↦ rw e h
    | inr e ↦ elim (Bool-cases (is_set (linker.dlopen file s.world).0)) [
      | inl o ↦
          rw (e, o) (load-Settled (linker.dlopen file s.world).0 (call (linker.dlopen file) s).1)
      | inr o ↦ rw (e, o) h
    ]
  ]

  attempt_existing-Settles : (file : Bytes) → Settles (attempt_existing linker file)
  unfolding attempt_existing
  attempt_existing-Settles file s h =
      let (there, after) = call (linker.exists file) s in
      elim (Bool-cases there) [ inl e ↦ rw e (attempt_open-Settles file after h) | inr e ↦ rw e h ]

  try_files-Settles : (dir : Bytes) (files : List Bytes) → Settles (try_files linker dir files)
  unfolding try_files
  try_files-Settles dir [] = λ s h. h
  try_files-Settles dir (file ∷ rest) =
      or_else-Settles (attempt_existing linker (dir ++ file)) (try_files linker dir rest)
        (attempt_existing-Settles (dir ++ file)) (try_files-Settles dir rest)

  try_dirs-Settles : (some_dirs : List Bytes) → Settles (try_dirs linker some_dirs)
  unfolding try_dirs
  try_dirs-Settles [] = λ s h. h
  try_dirs-Settles (dir ∷ rest) =
      or_else-Settles (try_files linker dir libs) (try_dirs linker rest)
        (try_files-Settles dir libs) (try_dirs-Settles rest)

  attempt_manual-Settles : (path : Option Bytes) → Settles (attempt_manual linker path)
  unfolding attempt_manual
  attempt_manual-Settles none = λ s h. h
  attempt_manual-Settles (some path) = attempt_open-Settles path

  -- From null pointers, `initialize` succeeds with every function that the program calls resolved, or
  -- fails with every pointer null again, also if some library lacked only one of the functions.
  pub initialize-Settled :
      (s : Loader W)
      → s.symbols ≡ null_symbols
      → let (success, after) = initialize linker s in Settled success after.symbols
  unfolding initialize
  initialize-Settled s h =
      let (path, after) = call (linker.getenv (codes "SPONSORYEET_SSL_LIB")) s in
      or_else-Settles (attempt_manual linker path) (try_dirs linker dirs)
        (attempt_manual-Settles path) (try_dirs-Settles dirs) after h
