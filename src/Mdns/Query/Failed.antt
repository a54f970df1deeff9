-- ===== src/Mdns/Query/Failed.antt =====
-- `findChromecast` of mdns.h when it cannot ask: its `return 1` and `return 2`.
use sponsoryeet.Prelude.{ℕ, ◌≡◌, ◌⊎◌, inl, inr, refl, true, false, Bool-cases, some, if◌then◌else◌}
use sponsoryeet.State.{Address, Os, Machine}
use sponsoryeet.Mdns.Query.{Net, is_negative, open_socket, send_request, find_chromecast}

module _ {D W : Type 0} (os : Os W) (net : Net W) where
  -- If `openSocket` fails in any of its steps, or the request cannot be sent on the socket that it
  -- opened, `findChromecast` answers `true`, with the address as it was before, and does nothing more.
  pub find_chromecast-failed :
      (rounds fuel : ℕ) (address : Address) (s : Machine D W)
      → let (fd, opened) = open_socket os net s in
        let (sent, asked) = send_request os net fd opened in
        (is_negative fd ≡ true) ⊎ (sent ≡ false)
        → find_chromecast os net rounds fuel address s
          ≡ (some (true, address), (if is_negative fd then opened else asked))
  unfolding find_chromecast
  find_chromecast-failed rounds fuel address s (inl e) = rw e refl
  find_chromecast-failed rounds fuel address s (inr e) =
      elim (Bool-cases (is_negative (open_socket os net s).0)) [
        | inl n ↦ rw n refl
        | inr n ↦ rw (n, e) refl
      ]
