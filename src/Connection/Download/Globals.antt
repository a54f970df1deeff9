-- ===== src/Connection/Download/Globals.antt =====
-- `downloadFile` changes no variable of the program.
use sponsoryeet.Prelude.{ℕ, ◌≡◌, refl, ◌∙◌, Bool-cases, Option-cases, inl, inr, Bytes}
use sponsoryeet.State.{Os, Address, Machine, ◌>>=◌, call}
use sponsoryeet.Connection.{Connection, open_connection, connect, write}
use sponsoryeet.Connection.Download.{fetch, request_text, download_file}
use sponsoryeet.Connection.Globals.{
  close_connection-globals, connect-globals, write-globals, read-globals,
}

module _ {D W : Type 0} (os : Os W) where
  fetch-globals :
      (hostname file_path : Bytes) (conn : Connection) (s : Machine D W)
      → (fetch os hostname file_path conn s).1.globals ≡ s.globals
  unfolding fetch
  fetch-globals hostname file_path conn s =
      let text = request_text hostname file_path in
      let (sent, after) = write os conn text s in
      let same = write-globals os conn text s in
      elim (Bool-cases sent) [
        | inl e ↦ rw e (read-globals os _ conn after ∙ same)
        | inr e ↦ rw e same
      ]

  pub download_file-globals :
      (hostname : Bytes) (port : ℕ) (file_path : Bytes) (s : Machine D W)
      → (download_file os hostname port file_path s).1.globals ≡ s.globals
  unfolding download_file open_connection
  download_file-globals hostname port file_path s =
      let (found, s₁) = call (os.gethostbyname hostname) s in
      elim (Option-cases found) [
        | inl e ↦ rw (◌>>=◌, e) refl
        | inr (host, e) ↦
            let address : Address = record { host = host; port = port } in
            let (conn, s₂) = open_connection os s₁ in
            let ((connected, conn'), s₃) = connect os address conn s₂ in
            let same = connect-globals os address conn s₂ in
            elim (Bool-cases connected) [
              | inl f ↦
                  rw (◌>>=◌, e, f)
                    (close_connection-globals os conn' _
                      ∙ fetch-globals hostname file_path conn' s₃
                      ∙ same)
              | inr f ↦ rw (◌>>=◌, e, f) (close_connection-globals os conn' _ ∙ same)
            ]
      ]
