-- ===== src/Connection/Released.antt =====
-- What a `Connection` of connection.h holds, and that its destructor gives it back.
use mathlib.Core.Path.{fun_ext}
use sponsoryeet.State.Bag.{
  Bag, Resource, ssl_context, ssl_handle, descriptor, empty, one, both, both-empty,
}
use sponsoryeet.Prelude.{
  ℕ, zero, suc, ◌*◌, ◌≡◌, ◌≢◌, refl, ap, ◌∙◌, Bool, true, false, not, Bool-cases, inl, inr,
  if◌then◌else◌, ◌==◌, ltb_ℤ, ℤ, pos, negsuc, Bytes, arith,
}
use sponsoryeet.State.{Os, Address, Machine, Action, return, call}
use sponsoryeet.Connection.{
  is_nought, Connection, ping_interval, ssl_verify_none, verify_callback, open_connection,
  close_connection, connect_ssl, connect,
}

-- A pointer that is not null, a descriptor above 0, and what `socket` has made.
abbrev pub set_pointer : (ℕ → Resource) → ℕ → Bag
set_pointer kind p = if p == 0 then empty else one (kind p)

abbrev pub open_descriptor : ℤ → Bag
open_descriptor fd = if ltb_ℤ (pos 0) fd then one (descriptor fd) else empty

abbrev pub made : ℤ → Bag
made (pos n) = one (descriptor (pos n))
made (negsuc n) = empty

-- The context, handle and socket of a connection.
abbrev pub owned : Connection → Bag
owned conn =
    both (set_pointer ssl_handle conn.handle)
      (both (set_pointer ssl_context conn.ctx) (open_descriptor conn.fd))

-- Which contexts, handles and sockets are in use: the calls that make one add it, the calls that free
-- one that is in use take that one off, and no other call changes what is in use. No new socket gets the
-- number 0, since that is the standard input.
pub record Holds {W : Type 0} (os : Os W) (held : W → Bag) : Type 0 where
  pub method : (w : W) → held (os.tls_client_method w).1 ≡ held w
  pub new_ctx :
      (p : ℕ) (w : W)
      → let (ctx, w') = os.ssl_ctx_new p w in held w' ≡ both (set_pointer ssl_context ctx) (held w)
  pub asserts : (b : Bool) (w : W) → held (os.assert b w).1 ≡ held w
  pub verify :
      (p mode : ℕ) (f : ℤ → ℕ → ℤ) (w : W) → held (os.ssl_ctx_set_verify p mode f w).1 ≡ held w
  pub new_handle :
      (p : ℕ) (w : W)
      → let (handle, w') = os.ssl_new p w in held w' ≡ both (set_pointer ssl_handle handle) (held w)
  pub free_ctx :
      (p : ℕ) (w : W) (n : Bag)
      → held w ≡ both (one (ssl_context p)) n
      → held (os.ssl_ctx_free p w).1 ≡ n
  pub free_handle :
      (p : ℕ) (w : W) (n : Bag)
      → held w ≡ both (one (ssl_handle p)) n
      → held (os.ssl_free p w).1 ≡ n
  pub new_socket : (w : W) → let (fd, w') = os.socket w in held w' ≡ both (made fd) (held w)
  pub not_stdin : (w : W) → (os.socket w).0 ≢ pos 0
  pub close_socket :
      (fd : ℤ) (w : W) (n : Bag)
      → held w ≡ both (one (descriptor fd)) n
      → held (os.close fd w).1 ≡ n
  pub timeout : (fd : ℤ) (n : ℕ) (w : W) → held (os.set_user_timeout fd n w).1 ≡ held w
  pub connects : (fd : ℤ) (a : Address) (w : W) → held (os.connect fd a w).1 ≡ held w
  pub sets_fd : (p : ℕ) (fd : ℤ) (w : W) → held (os.ssl_set_fd p fd w).1 ≡ held w
  pub shakes : (p : ℕ) (w : W) → held (os.ssl_connect p w).1 ≡ held w
  pub writes : (p : ℕ) (text : Bytes) (w : W) → held (os.ssl_write p text w).1 ≡ held w
  pub reads : (p size : ℕ) (w : W) → held (os.ssl_read p size w).1 ≡ held w
  pub resolves : (name : Bytes) (w : W) → held (os.gethostbyname name w).1 ≡ held w

-- A new socket in place of none.
made_lem :
    (conn : Connection) (fd : ℤ) (after before : Bag)
    → conn.fd ≡ negsuc 0
    → fd ≢ pos 0
    → after ≡ both (made fd) before
    → both after (owned conn) ≡ both (owned (record conn { fd = fd })) before
made_lem conn (pos zero) after before h n e = absurd (n refl)
made_lem conn (pos (suc k)) after before h n e = fun_ext λ r.
    let a = ap (λ b. b r) e in
    let o = ap (λ d. open_descriptor d r) h in
    let up : open_descriptor (pos (suc k)) r ≡ one (descriptor (pos (suc k))) r = ground arith in
    omega (arith, a, o, up)
made_lem conn (negsuc k) after before h n e = fun_ext λ r.
    let a = ap (λ b. b r) e in
    let o = ap (λ d. open_descriptor d r) h in
    let down : open_descriptor (negsuc k) r ≡ 0 = ground arith in omega (arith, a, o, down)

-- A connection takes over what was made for it.
pub settled :
    (before opened connected : Bag) (conn conn' : Connection)
    → opened ≡ both (owned conn) before
    → both connected (owned conn) ≡ both (owned conn') opened
    → connected ≡ both (owned conn') before
settled before opened connected conn conn' took made_ =
    fun_ext λ r. let a = ap (λ b. b r) took in let c = ap (λ b. b r) made_ in omega (arith, a, c)

module _ {D W : Type 0} (os : Os W) (held : W → Bag) (holds : Holds os held) where
  pub open_connection-holds :
      (s : Machine D W)
      → let (conn, after) = open_connection os s in
        (held after.world ≡ both (owned conn) (held s.world)) × (conn.fd ≡ negsuc 0)
  unfolding open_connection
  open_connection-holds s =
      let (method, w₁) = os.tls_client_method s.world in
      let (ctx, w₂) = os.ssl_ctx_new method w₁ in
      let w₃ = (os.assert (not (ctx == 0)) w₂).1 in
      let w₄ = (os.ssl_ctx_set_verify ctx ssl_verify_none verify_callback w₃).1 in
      let a = holds.method s.world in
      let b = holds.new_ctx method w₁ in
      let c =
        holds.verify ctx ssl_verify_none verify_callback w₃ ∙ holds.asserts (not (ctx == 0)) w₂ in
      let d = holds.new_handle ctx w₄ in
      (
        fun_ext λ r.
            let a' = ap (λ h. h r) a in
            let b' = ap (λ h. h r) b in
            let c' = ap (λ h. h r) c in let d' = ap (λ h. h r) d in omega (arith, a', b', c', d'),
        refl,
      )

  -- A call that frees something, unless there is nothing to free.
  unless_holds :
      (b : Bool) (x : Action D W (Unit {0})) (item : Resource) (s : Machine D W) (n : Bag)
      → (held s.world ≡ both (one item) n → held (x s).1.world ≡ n)
      → held s.world ≡ both (if b then empty else one item) n
      → held ((if b then return tt else x) s).1.world ≡ n
  unless_holds true x item s n free h = h ∙ both-empty n
  unless_holds false x item s n free h = free h

  when_holds :
      (b : Bool) (x : Action D W (Unit {0})) (item : Resource) (s : Machine D W) (n : Bag)
      → (held s.world ≡ both (one item) n → held (x s).1.world ≡ n)
      → held s.world ≡ both (if b then one item else empty) n
      → held ((if b then x else return tt) s).1.world ≡ n
  when_holds true x item s n free h = free h
  when_holds false x item s n free h = h ∙ both-empty n

  pub connect-holds :
      (address : Address) (conn : Connection) (s : Machine D W)
      → conn.fd ≡ negsuc 0
      → let ((done, conn'), after) = connect os address conn s in
        both (held after.world) (owned conn) ≡ both (owned conn') (held s.world)
  unfolding connect connect_ssl
  connect-holds address conn s h =
      let (fd, w₁) = os.socket s.world in
      let w₂ = (os.set_user_timeout fd (ping_interval * 1000) w₁).1 in
      let w₃ = (os.connect fd address w₂).1 in
      let w₄ = (os.ssl_set_fd conn.handle fd w₃).1 in
      let made_ : both (held w₁) (owned conn)
          ≡ both (owned (record conn { fd = fd })) (held s.world) =
        made_lem conn fd (held w₁) (held s.world) h (holds.not_stdin s.world)
          (holds.new_socket s.world) in
      let later : (b : Bag)
          → b ≡ held w₁
          → both b (owned conn) ≡ both (owned (record conn { fd = fd })) (held s.world) =
        λ b e. ap (λ k. both k (owned conn)) e ∙ made_ in
      let a = holds.timeout fd (ping_interval * 1000) w₁ in
      let b = holds.connects fd address w₂ ∙ a in
      let c = holds.sets_fd conn.handle fd w₃ ∙ b in
      let d = holds.shakes conn.handle w₄ ∙ c in
      elim (Bool-cases (ltb_ℤ fd (pos 0))) [
        | inl e ↦ rw e made_
        | inr e ↦
            elim (Bool-cases
              (not (is_nought (os.set_user_timeout fd (ping_interval * 1000) w₁).0))) [
                | inl f ↦ rw (e, f) (later _ a)
                | inr f ↦ elim (Bool-cases (not (is_nought (os.connect fd address w₂).0))) [
                  | inl g ↦ rw (e, f, g) (later _ b)
                  | inr g ↦ rw (e, f, g) (later _ d)
                ]
              ]
      ]

  pub close_connection-holds :
      (conn : Connection) (s : Machine D W) (n : Bag)
      → held s.world ≡ both (owned conn) n
      → held (close_connection os conn s).1.world ≡ n
  unfolding close_connection
  close_connection-holds conn s n h =
      let s₁ = ((if conn.handle == 0 then return tt else call (os.ssl_free conn.handle)) s).1 in
      let s₂ = ((if conn.ctx == 0 then return tt else call (os.ssl_ctx_free conn.ctx)) s₁).1 in
      let k = both (open_descriptor conn.fd) n in
      let rest = both (set_pointer ssl_context conn.ctx) k in
      let apart : both (owned conn) n ≡ both (set_pointer ssl_handle conn.handle) rest =
        fun_ext λ r. omega arith in
      let first =
        unless_holds (conn.handle == 0) (call (os.ssl_free conn.handle)) (ssl_handle conn.handle) s
          rest (holds.free_handle conn.handle s.world rest) (h ∙ apart) in
      let second =
        unless_holds (conn.ctx == 0) (call (os.ssl_ctx_free conn.ctx)) (ssl_context conn.ctx) s₁ k
          (holds.free_ctx conn.ctx s₁.world k) first in
      when_holds (ltb_ℤ (pos 0) conn.fd) (call (os.close conn.fd)) (descriptor conn.fd) s₂ n
        (holds.close_socket conn.fd s₂.world n) second
