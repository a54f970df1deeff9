-- ===== src/Connection.antt =====
-- `struct Connection` of connection.h. The system and the SSL library are parameters, calls of `Os`.
pub mod Download
pub mod Globals
pub mod Released
use sponsoryeet.Prelude.{
  ℕ, ◌*◌, ◌-◌, ◌^◌, not, ltb_ℤ, ◌≡◌, Bool, true, false, [], if◌then◌else◌, ◌==◌, length, take,
  replicate, ◌++◌, ℤ, pos, negsuc, Bytes,
}
use sponsoryeet.State.{Os, Address, Machine, Action, ◌>>=◌, return, call}

-- `ctx` and `handle` are pointers of the SSL library, and `fd` is the socket.
pub record Connection : Type 0 where
  pub eof : Bool
  pub method : ℕ
  pub ctx : ℕ
  pub handle : ℕ
  pub fd : ℤ

-- `SSL_VERIFY_NONE`.
abbrev pub ssl_verify_none : ℕ
ssl_verify_none = 0

-- The callback accepts every certificate.
abbrev pub verify_callback : ℤ → ℕ → ℤ
verify_callback preverified store = pos 1

abbrev pub ping_interval : ℕ
ping_interval = 30

-- `size_t(n)` of an `int`.
abbrev pub to_size : ℤ → ℕ
to_size (pos n) = n
to_size (negsuc n) = 2 ^ 64 - 1 - n

-- `buffer.resize(amount)`, which cuts the buffer or fills it up with zeros.
abbrev pub resize : ℕ → Bytes → Bytes
resize n buffer = take n (buffer ++ replicate n 0)

abbrev is_one : ℤ → Bool
is_one (pos n) = n == 1
is_one (negsuc n) = false

abbrev is_nought : ℤ → Bool
is_nought (pos n) = n == 0
is_nought (negsuc n) = false

module _ {D W : Type 0} (os : Os W) where
  open os use {
    assert, tls_client_method, ssl_ctx_new, ssl_ctx_set_verify, ssl_new, ssl_free, ssl_ctx_free,
    socket, set_user_timeout, ssl_set_fd, ssl_connect, close, ssl_write, ssl_read,
  }

  -- `Connection()`.
  unfoldable pub open_connection : Action D W Connection
  open_connection = do
    method ← call tls_client_method
    ctx ← call (ssl_ctx_new method)
    asserted ← call (assert (not (ctx == 0)))
    set ← call (ssl_ctx_set_verify ctx ssl_verify_none verify_callback)
    handle ← call (ssl_new ctx)
    return (record { eof = false; method = method; ctx = ctx; handle = handle; fd = negsuc 0 })

  -- `~Connection()`.
  unfoldable pub close_connection : Connection → Action D W (Unit {0})
  close_connection conn = do
    freed ← if conn.handle == 0 then return tt else call (ssl_free conn.handle)
    freed ← if conn.ctx == 0 then return tt else call (ssl_ctx_free conn.ctx)
    if ltb_ℤ (pos 0) conn.fd then call (close conn.fd) else return tt

  -- `connect` from its SSL part on.
  pub connect_ssl : Connection → Action D W Bool
  connect_ssl conn = do
    set ← call (ssl_set_fd conn.handle conn.fd)
    ret ← call (ssl_connect conn.handle)
    return (is_one ret)

  -- The socket stays in the connection on every branch.
  unfoldable pub connect : Address → Connection → Action D W (Bool × Connection)
  unfolding connect_ssl
  connect address conn = do
    fd ← call socket
    let opened = record conn { fd = fd }
    if ltb_ℤ fd (pos 0) then return (false, opened) else (do
      ret ← call (set_user_timeout fd (ping_interval * 1000))
      if not (is_nought ret) then return (false, opened) else (do
        ret ← call (os.connect fd address)
        if not (is_nought ret)
            then return (false, opened)
            else (do done ← connect_ssl opened; return (done, opened))))

  unfoldable pub write : Connection → Bytes → Action D W Bool
  write conn text = do
    amount ← call (ssl_write conn.handle text)
    return (to_size amount == length text)

  -- A failed read is an empty text, and a read of nothing is the end of the connection.
  unfoldable pub read : ℕ → Connection → Action D W (Bytes × Connection)
  read size conn = do
    (amount, buffer) ← call (ssl_read conn.handle size)
    return (elim amount [
      | negsuc n ↦ ([], conn)
      | pos n ↦ (resize n buffer, if n == 0 then record conn { eof = true } else conn)
    ])
