-- ===== src/Ssl/Closed.antt =====
-- The handles that ssl.cc opens and closes.
use sponsoryeet.State.Bag.{Bag, library, one, both}
use sponsoryeet.Prelude.{
  ℕ, ◌≡◌, refl, ◌∙◌, Bool, Bool-cases, inl, inr, Option, none, some, List, [], ◌∷◌, ◌++◌,
  if◌then◌else◌, Bytes, codes, is_empty,
}
use sponsoryeet.Ssl.{
  resolve_client_method, Linker, Symbols, Loader, Loading, is_set, or_else, libs, dirs, call,
  resolve_symbols, library_init, load, attempt_open, resolve, attempt_existing, attempt_manual,
  try_files, try_dirs, initialize,
}

-- Which handles are open. `dlopen` adds the handle that it gives, if it gives one, `dlclose` of an open
-- one takes that one off, and no other call changes which are open.
pub record Counts {W : Type 0} (linker : Linker W) (open_handles : W → Bag) : Type 0 where
  pub opens :
      (file : Bytes) (w : W)
      → let (handle, after) = linker.dlopen file w in
        open_handles after
        ≡ (if is_set handle then both (one (library handle)) (open_handles w) else open_handles w)
  pub closes :
      (handle : ℕ) (w : W) (n : Bag)
      → open_handles w ≡ both (one (library handle)) n
      → open_handles (linker.dlclose handle w).1 ≡ n
  pub resolves :
      (handle : ℕ) (name : Bytes) (w : W)
      → open_handles (linker.dlsym handle name w).1 ≡ open_handles w
  pub starts : (pointer : ℕ) (w : W) → open_handles (linker.start pointer w).1 ≡ open_handles w
  pub looks : (file : Bytes) (w : W) → open_handles (linker.exists file w).1 ≡ open_handles w
  pub reads : (name : Bytes) (w : W) → open_handles (linker.getenv name w).1 ≡ open_handles w

module _ {W : Type 0} (linker : Linker W) (open_handles : W → Bag)
    (counts : Counts linker open_handles) where
  -- An action that leaves open what was open.
  abbrev Keeps : {A : Type 0} → Loading W A → Type 0
  Keeps x = (s : Loader W) → open_handles (x s).1.world ≡ open_handles s.world

  or_else-Keeps : (x y : Loading W Bool) → Keeps x → Keeps y → Keeps (or_else x y)
  or_else-Keeps x y h k s = elim (Bool-cases (x s).0) [
    | inl t ↦ rw t (h s)
    | inr f ↦ rw f (k (x s).1 ∙ h s)
  ]

  library_init-Keeps : (handle : ℕ) → Keeps (library_init linker handle)
  unfolding library_init
  library_init-Keeps handle s =
      let (old, w) = linker.dlsym handle (codes "SSL_library_init") s.world in
      let (new, v) = linker.dlsym handle (codes "OPENSSL_init_ssl") w in
      let same = counts.resolves handle (codes "SSL_library_init") s.world in
      let same₁ = counts.resolves handle (codes "OPENSSL_init_ssl") w in
      elim (Bool-cases (is_set old)) [
        | inl e ↦ rw e (counts.starts old w ∙ same)
        | inr e ↦ elim (Bool-cases (is_set new)) [
          | inl f ↦ rw (e, f) (counts.starts new v ∙ same₁ ∙ same)
          | inr f ↦ rw (e, f) (same₁ ∙ same)
        ]
      ]

  resolve-Keeps :
      (handle : ℕ) (name : Bytes) (put : ℕ → Symbols → Symbols)
      → Keeps (resolve linker handle name put)
  unfolding resolve
  resolve-Keeps handle name put s = counts.resolves handle name s.world

  resolve_client_method-Keeps : (handle : ℕ) → Keeps (resolve_client_method linker handle)
  unfolding resolve_client_method
  resolve_client_method-Keeps handle s =
      let (modern, w) = linker.dlsym handle (codes "TLS_client_method") s.world in
      let same = counts.resolves handle (codes "TLS_client_method") s.world in
      elim (Bool-cases (is_set modern)) [
        | inl e ↦ rw e same
        | inr e ↦ rw e (counts.resolves handle (codes "SSLv23_client_method") w ∙ same)
      ]

  resolve_symbols-Keeps : (handle : ℕ) → Keeps (resolve_symbols linker handle)
  unfolding resolve_symbols
  resolve_symbols-Keeps handle s = simp (resolve_client_method-Keeps, resolve-Keeps)

  -- The handle that `load` is given is closed, on every branch.
  load_closes :
      (handle : ℕ) (s : Loader W) (n : Bag)
      → open_handles s.world ≡ both (one (library handle)) n
      → open_handles (load linker handle s).1.world ≡ n
  unfolding load
  load_closes handle s n h =
      let (resolved, r) = resolve_symbols linker handle s in
      let same = resolve_symbols-Keeps handle s in
      elim (Bool-cases resolved) [
        | inl e ↦ rw e (
            counts.closes handle (library_init linker handle r).1.world n
              (library_init-Keeps handle r ∙ same ∙ h))
        | inr e ↦ rw e (counts.closes handle r.world n (same ∙ h))
      ]

  attempt_open-Keeps : (file : Bytes) → Keeps (attempt_open linker file)
  unfolding attempt_open
  attempt_open-Keeps file s =
      let (handle, after) = call (linker.dlopen file) s in
      let count = counts.opens file s.world in
      elim (Bool-cases (is_empty file)) [
        | inl e ↦ rw e refl
        | inr e ↦ elim (Bool-cases (is_set handle)) [
          | inl o ↦ rw (e, o) (load_closes handle after (open_handles s.world) (rw o at count))
          | inr o ↦ rw (e, o) (rw o at count)
        ]
      ]

  attempt_existing-Keeps : (file : Bytes) → Keeps (attempt_existing linker file)
  unfolding attempt_existing
  attempt_existing-Keeps file s =
      let (there, after) = call (linker.exists file) s in
      let same = counts.looks file s.world in
      elim (Bool-cases there) [
        | inl e ↦ rw e (attempt_open-Keeps file after ∙ same)
        | inr e ↦ rw e same
      ]

  try_files-Keeps : (dir : Bytes) (files : List Bytes) → Keeps (try_files linker dir files)
  unfolding try_files
  try_files-Keeps dir [] = λ s. refl
  try_files-Keeps dir (file ∷ rest) =
      or_else-Keeps (attempt_existing linker (dir ++ file)) (try_files linker dir rest)
        (attempt_existing-Keeps (dir ++ file)) (try_files-Keeps dir rest)

  try_dirs-Keeps : (some_dirs : List Bytes) → Keeps (try_dirs linker some_dirs)
  unfolding try_dirs
  try_dirs-Keeps [] = λ s. refl
  try_dirs-Keeps (dir ∷ rest) =
      or_else-Keeps (try_files linker dir libs) (try_dirs linker rest) (try_files-Keeps dir libs)
        (try_dirs-Keeps rest)

  attempt_manual-Keeps : (path : Option Bytes) → Keeps (attempt_manual linker path)
  unfolding attempt_manual
  attempt_manual-Keeps none = λ s. refl
  attempt_manual-Keeps (some path) = attempt_open-Keeps path

  -- `initialize` leaves exactly the library handles open that it found: also the library that it has just
  -- resolved every function of is closed again when it succeeds.
  pub initialize-Keeps :
      (s : Loader W) → open_handles (initialize linker s).1.world ≡ open_handles s.world
  unfolding initialize
  initialize-Keeps s =
      let (path, after) = call (linker.getenv (codes "SPONSORYEET_SSL_LIB")) s in
      or_else-Keeps (attempt_manual linker path) (try_dirs linker dirs) (attempt_manual-Keeps path)
        (try_dirs-Keeps dirs) after
      ∙ counts.reads (codes "SPONSORYEET_SSL_LIB") s.world
