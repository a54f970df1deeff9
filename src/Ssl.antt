-- ===== src/Ssl.antt =====
-- ssl.cc: the SSL library is found and loaded when the program starts. Printing, with the text of
-- `dlerror`, is left out. The functions that only call through a pointer are calls of `Os`.
pub mod Calls
pub mod Candidates
pub mod Closed
pub mod Resolved
use sponsoryeet.Prelude.{
  ℕ, Bool, true, false, not, ◌&&◌, Option, none, some, List, [], ◌∷◌, ◌++◌, if◌then◌else◌, ◌==◌,
  Bytes, codes, is_empty,
}

-- The dynamic linker and the environment. A handle or a pointer is a number, 0 for a null pointer.
-- `start` calls the function that a pointer points to, which sets the library up.
pub record Linker (W : Type 0) : Type 0 where
  pub dlopen : Bytes → W → ℕ × W
  pub dlsym : ℕ → Bytes → W → ℕ × W
  pub dlclose : ℕ → W → Unit {0} × W
  pub start : ℕ → W → Unit {0} × W
  pub exists : Bytes → W → Bool × W
  pub getenv : Bytes → W → Option Bytes × W

-- The variables `EXT_…`, in the order of their declaration.
pub record Symbols : Type 0 where
  pub ssl_new : ℕ
  pub ssl_ctx_new : ℕ
  pub tls_client_method : ℕ
  pub ssl_connect : ℕ
  pub ssl_get_error : ℕ
  pub ssl_read : ℕ
  pub ssl_set_fd : ℕ
  pub ssl_write : ℕ
  pub ssl_ctx_free : ℕ
  pub ssl_ctx_set_verify : ℕ
  pub ssl_free : ℕ

abbrev pub null_symbols : Symbols
null_symbols = record {
  ssl_new = 0;
  ssl_ctx_new = 0;
  tls_client_method = 0;
  ssl_connect = 0;
  ssl_get_error = 0;
  ssl_read = 0;
  ssl_set_fd = 0;
  ssl_write = 0;
  ssl_ctx_free = 0;
  ssl_ctx_set_verify = 0;
  ssl_free = 0;
}

-- The pointers and the world.
pub record Loader (W : Type 0) : Type 0 where
  pub symbols : Symbols
  pub world : W

abbrev pub Loading : Type 0 → Type 0 → Type 0
Loading W A = Loader W → A × Loader W

infixl 5 ◌>>=◌ ◌>>◌
abbrev pub ◌>>=◌ : {W A B : Type 0} → Loading W A → (A → Loading W B) → Loading W B
◌>>=◌ m f s = let (a, s') = m s in f a s'

abbrev pub ◌>>◌ : {W A B : Type 0} → Loading W A → Loading W B → Loading W B
◌>>◌ m k s = let (a, s') = m s in k s'

module _ {W : Type 0} where
  abbrev pub return : {A : Type 0} → A → Loading W A
  return a s = (a, s)

  abbrev pub get : Loading W Symbols
  get s = (s.symbols, s)

  abbrev pub modify : (Symbols → Symbols) → Loading W (Unit {0})
  modify f s = (tt, record s { symbols = f s.symbols })

  abbrev pub call : {A : Type 0} → (W → A × W) → Loading W A
  call f s = let (a, w) = f s.world in (a, record s { world = w })

-- `if (first) return true;`, and what follows it.
abbrev pub or_else : {W : Type 0} → Loading W Bool → Loading W Bool → Loading W Bool
or_else first rest = do opened ← first; if opened then return true else rest

abbrev pub is_set : ℕ → Bool
is_set pointer = not (pointer == 0)

-- What `resolveSymbols` returns.
unfoldable pub all_set : Symbols → Bool
all_set s =
    is_set s.ssl_ctx_free
    && (is_set s.ssl_ctx_new
        && (is_set s.ssl_ctx_set_verify
            && (is_set s.ssl_connect
                && (is_set s.ssl_free
                    && (is_set s.ssl_get_error
                        && (is_set s.ssl_new
                            && (is_set s.ssl_read
                                && (is_set s.ssl_write
                                    && (is_set s.ssl_set_fd && is_set s.tls_client_method)))))))))

-- The literals `"./"` and `"/usr/local/lib/"` have no comma between them, and are one text.
abbrev pub dirs : List Bytes
dirs =
    codes "/usr/lib/"
    ∷ (codes "./" ++ codes "/usr/local/lib/")
    ∷ codes "/usr/local/openssl/lib/"
    ∷ codes "/usr/local/ssl/lib/"
    ∷ codes "/opt/openssl/lib/"
    ∷ codes "/lib/"
    ∷ []

abbrev pub libs : List Bytes
libs = codes "libssl.so" ∷ codes "libgnutls-openssl.so" ∷ []

module _ {W : Type 0} (linker : Linker W) where
  open linker use {dlopen, dlsym, dlclose, start, exists, getenv}

  -- `RESOLVE_SYMBOL`.
  unfoldable pub resolve : ℕ → Bytes → (ℕ → Symbols → Symbols) → Loading W (Unit {0})
  resolve handle name put = do pointer ← call (dlsym handle name); modify (put pointer)

  unfoldable pub resolve_client_method : ℕ → Loading W (Unit {0})
  resolve_client_method handle = do
    modern ← call (dlsym handle (codes "TLS_client_method"))
    pointer ←
        if is_set modern then return modern else call (dlsym handle (codes "SSLv23_client_method"))
    modify (λ s. record s { tls_client_method = pointer })

  unfoldable pub resolve_symbols : ℕ → Loading W Bool
  resolve_symbols handle = do
    resolve handle (codes "SSL_new") (λ p s. record s { ssl_new = p })
    resolve handle (codes "SSL_CTX_new") (λ p s. record s { ssl_ctx_new = p })
    resolve handle (codes "SSL_connect") (λ p s. record s { ssl_connect = p })
    resolve handle (codes "SSL_get_error") (λ p s. record s { ssl_get_error = p })
    resolve handle (codes "SSL_read") (λ p s. record s { ssl_read = p })
    resolve handle (codes "SSL_set_fd") (λ p s. record s { ssl_set_fd = p })
    resolve handle (codes "SSL_write") (λ p s. record s { ssl_write = p })
    resolve handle (codes "SSL_CTX_free") (λ p s. record s { ssl_ctx_free = p })
    resolve handle (codes "SSL_CTX_set_verify") (λ p s. record s { ssl_ctx_set_verify = p })
    resolve handle (codes "SSL_free") (λ p s. record s { ssl_free = p })
    resolve_client_method handle
    s ← get
    return (all_set s)

  unfoldable pub library_init : ℕ → Loading W Bool
  library_init handle = do
    old ← call (dlsym handle (codes "SSL_library_init"))
    if is_set old then (do started ← call (start old); return true) else (do
      new ← call (dlsym handle (codes "OPENSSL_init_ssl"))
      if is_set new then (do started ← call (start new); return true) else return false)

  -- `attemptOpen` from the handle on.
  unfoldable pub load : ℕ → Loading W Bool
  load handle = do
    resolved ← resolve_symbols handle
    success ← if resolved then library_init handle else return false
    modify (λ s. if success then s else null_symbols)
    closed ← call (dlclose handle)
    return success

  unfoldable pub attempt_open : Bytes → Loading W Bool
  unfolding load
  attempt_open file =
      if is_empty file
      then return false
      else (do handle ← call (dlopen file); if is_set handle then load handle else return false)

  -- A path that exists is tried.
  pub attempt_existing : Bytes → Loading W Bool
  attempt_existing file = do
    there ← call (exists file)
    if there then attempt_open file else return false

  pub try_files : Bytes → List Bytes → Loading W Bool
  try_files dir [] = return false
  try_files dir (filename ∷ rest) =
      or_else (attempt_existing (dir ++ filename)) (try_files dir rest)

  pub try_dirs : List Bytes → Loading W Bool
  try_dirs [] = return false
  try_dirs (dir ∷ rest) = or_else (try_files dir libs) (try_dirs rest)

  -- The path of the environment, if there is one.
  unfoldable pub attempt_manual : Option Bytes → Loading W Bool
  attempt_manual none = return false
  attempt_manual (some path) = attempt_open path

  unfoldable pub initialize : Loading W Bool
  unfolding try_dirs try_files attempt_existing
  initialize = do
    manual_path ← call (getenv (codes "SPONSORYEET_SSL_LIB"))
    or_else (attempt_manual manual_path) (try_dirs dirs)
