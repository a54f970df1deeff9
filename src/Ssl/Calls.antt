-- ===== src/Ssl/Calls.antt =====
-- The functions of ssl.cc that call through a pointer. `none` is a call through a null pointer.
use sponsoryeet.Prelude.{ℕ, Option, none, some, if◌then◌else◌, ◌==◌, ℤ, Bytes}
use sponsoryeet.Ssl.{Symbols}

-- The code at an address, called as each of the functions.
record Code (W : Type 0) : Type 0 where
  pub ctx_free : ℕ → ℕ → W → Unit {0} × W
  pub ctx_new : ℕ → ℕ → W → ℕ × W
  pub ctx_set_verify : ℕ → ℕ → ℕ → (ℤ → ℕ → ℤ) → W → Unit {0} × W
  pub connect : ℕ → ℕ → W → ℤ × W
  pub free : ℕ → ℕ → W → Unit {0} × W
  pub get_error : ℕ → ℕ → ℤ → W → ℤ × W
  pub new : ℕ → ℕ → W → ℕ × W
  pub read : ℕ → ℕ → ℕ → W → (ℤ × Bytes) × W
  pub set_fd : ℕ → ℕ → ℤ → W → ℤ × W
  pub write : ℕ → ℕ → Bytes → W → ℤ × W
  pub client_method : ℕ → W → ℕ × W

abbrev through : {A : Type 0} → ℕ → A → Option A
through pointer result = if pointer == 0 then none else some result

module _ {W : Type 0} (code : Code W) (symbols : Symbols) where
  ssl_ctx_free : ℕ → W → Option (Unit {0} × W)
  ssl_ctx_free ctx w = through symbols.ssl_ctx_free (code.ctx_free symbols.ssl_ctx_free ctx w)

  ssl_ctx_new : ℕ → W → Option (ℕ × W)
  ssl_ctx_new method w = through symbols.ssl_ctx_new (code.ctx_new symbols.ssl_ctx_new method w)

  ssl_ctx_set_verify : ℕ → ℕ → (ℤ → ℕ → ℤ) → W → Option (Unit {0} × W)
  ssl_ctx_set_verify ctx mode callback w =
      through symbols.ssl_ctx_set_verify
        (code.ctx_set_verify symbols.ssl_ctx_set_verify ctx mode callback w)

  ssl_connect : ℕ → W → Option (ℤ × W)
  ssl_connect ssl w = through symbols.ssl_connect (code.connect symbols.ssl_connect ssl w)

  ssl_free : ℕ → W → Option (Unit {0} × W)
  ssl_free ssl w = through symbols.ssl_free (code.free symbols.ssl_free ssl w)

  ssl_get_error : ℕ → ℤ → W → Option (ℤ × W)
  ssl_get_error ssl rc w =
      through symbols.ssl_get_error (code.get_error symbols.ssl_get_error ssl rc w)

  ssl_new : ℕ → W → Option (ℕ × W)
  ssl_new ctx w = through symbols.ssl_new (code.new symbols.ssl_new ctx w)

  ssl_read : ℕ → ℕ → W → Option ((ℤ × Bytes) × W)
  ssl_read ssl num w = through symbols.ssl_read (code.read symbols.ssl_read ssl num w)

  ssl_set_fd : ℕ → ℤ → W → Option (ℤ × W)
  ssl_set_fd ssl fd w = through symbols.ssl_set_fd (code.set_fd symbols.ssl_set_fd ssl fd w)

  ssl_write : ℕ → Bytes → W → Option (ℤ × W)
  ssl_write ssl text w = through symbols.ssl_write (code.write symbols.ssl_write ssl text w)

  tls_client_method : W → Option (ℕ × W)
  tls_client_method w =
      through symbols.tls_client_method (code.client_method symbols.tls_client_method w)
