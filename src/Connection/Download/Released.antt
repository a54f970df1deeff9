-- ===== src/Connection/Download/Released.antt =====
-- `downloadFile` releases what it takes.
use sponsoryeet.State.Bag.{Bag, both}
use sponsoryeet.Prelude.{ℕ, ◌*◌, ◌≡◌, ap, ◌∙◌, Bool-cases, Option-cases, inl, inr, Bytes}
use sponsoryeet.State.{Os, Address, Machine, ◌>>=◌, call}
use sponsoryeet.Connection.{Connection, open_connection, connect, write, read}
use sponsoryeet.Connection.Download.{fetch, request_text, download_file}
use sponsoryeet.Connection.Released.{
  Holds, owned, settled, open_connection-holds, connect-holds, close_connection-holds,
}

module _ {D W : Type 0} (os : Os W) (held : W → Bag) (holds : Holds os held) where
  fetch-holds :
      (hostname file_path : Bytes) (conn : Connection) (s : Machine D W)
      → held (fetch os hostname file_path conn s).1.world ≡ held s.world
  unfolding fetch write read
  fetch-holds hostname file_path conn s =
      let text = request_text hostname file_path in
      let (sent, after) = write os conn text s in
      let a = holds.writes conn.handle text s.world in
      elim (Bool-cases sent) [
        | inl e ↦ rw e (holds.reads conn.handle (1024 * 1024) after.world ∙ a)
        | inr e ↦ rw e a
      ]

  -- `downloadFile` gives back every context, handle and socket that it takes, whether the host is known
  -- or not, and however far the connection, the request and the answer come.
  pub download_file-holds :
      (hostname : Bytes) (port : ℕ) (file_path : Bytes) (s : Machine D W)
      → held (download_file os hostname port file_path s).1.world ≡ held s.world
  unfolding download_file
  download_file-holds hostname port file_path s =
      let (found, s₁) = call (os.gethostbyname hostname) s in
      let a = holds.resolves hostname s.world in
      elim (Option-cases found) [
        | inl e ↦ rw (◌>>=◌, e) a
        | inr (host, e) ↦
            let address : Address = record { host = host; port = port } in
            let (conn, s₂) = open_connection os s₁ in
            let ((connected, conn'), s₃) = connect os address conn s₂ in
            let (b, unset) = open_connection-holds os held holds s₁ in
            let c = connect-holds os held holds address conn s₂ unset in
            let taken =
              settled (held s₁.world) (held s₂.world) (held s₃.world) conn conn' b c
              ∙ ap (both (owned conn')) a in
            let d = fetch-holds hostname file_path conn' s₃ in
            elim (Bool-cases connected) [
              | inl f ↦
                  rw (◌>>=◌, e, f) (close_connection-holds os held holds conn' _ _ (d ∙ taken))
              | inr f ↦ rw (◌>>=◌, e, f) (close_connection-holds os held holds conn' _ _ taken)
            ]
      ]
