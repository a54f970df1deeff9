-- ===== src/Connection/Globals.antt =====
-- The connection and the download change no variable of the program.
use sponsoryeet.Prelude.{ℕ, ◌≡◌, refl, Bytes, arith}
use sponsoryeet.State.{Os, Address, Machine}
use sponsoryeet.Connection.{Connection, close_connection, connect_ssl, connect, write, read}

module _ {D W : Type 0} (os : Os W) where
  pub close_connection-globals :
      (conn : Connection) (s : Machine D W) → (close_connection os conn s).1.globals ≡ s.globals
  unfolding close_connection
  close_connection-globals conn s = ground arith

  pub connect-globals :
      (address : Address) (conn : Connection) (s : Machine D W)
      → (connect os address conn s).1.globals ≡ s.globals
  unfolding connect connect_ssl
  connect-globals address conn s = ground arith

  pub write-globals :
      (conn : Connection) (text : Bytes) (s : Machine D W)
      → (write os conn text s).1.globals ≡ s.globals
  unfolding write
  write-globals conn text s = refl

  pub read-globals :
      (size : ℕ) (conn : Connection) (s : Machine D W) → (read os size conn s).1.globals ≡ s.globals
  unfolding read
  read-globals size conn s = refl
