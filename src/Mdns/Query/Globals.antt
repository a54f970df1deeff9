-- ===== src/Mdns/Query/Globals.antt =====
-- The search of mdns.h changes no variable of the program.
use sponsoryeet.Prelude.{ℕ, ◌≡◌, refl, ◌∙◌, not, Bool-cases, inl, inr, List, [], ◌∷◌, ℤ, arith}
use sponsoryeet.State.{Address, Os, Machine, Action, return, call}
use sponsoryeet.State.View.{KeepsView}
use sponsoryeet.Mdns.Query.{
  SocketOption, broadcast, reuse_address, multicast_ttl, join_group, Net, is_negative, with_options,
  bind_and_join, open_socket, send_request, query, find_chromecast,
}
use sponsoryeet.Mdns.Query.Kept.{Leaves, send_request-Keeps, query-Keeps}

module _ {D W : Type 0} (os : Os W) (net : Net W) where
  abbrev Keeps : {A : Type 0} → Action D W A → Type 0
  Keeps = KeepsView (λ g. g)

  leaves : Leaves {D = D} os net (λ s. s.globals)
  leaves = record {
    sends = λ fd text s. refl;
    selects = λ fd s. refl;
    keys = λ s. refl;
    receives = λ fd room s. refl;
    runs = λ s. refl;
    times = λ s. refl;
  }

  with_options-Keeps :
      (fd : ℤ) (options : List SocketOption) (after : Action D W ℤ)
      → Keeps after
      → Keeps (with_options os net fd options after)
  unfolding with_options
  with_options-Keeps fd [] after h s = h s
  with_options-Keeps fd (option ∷ rest) after h s =
      let (st, s₁) = call (net.set_option fd option) s in
      let more = with_options-Keeps fd rest after h s₁ in
      elim (Bool-cases (is_negative st)) [ inl e ↦ rw e refl | inr e ↦ rw e more ]

  bind_and_join-Keeps : (fd : ℤ) → Keeps (bind_and_join os net fd)
  unfolding bind_and_join
  bind_and_join-Keeps fd s =
      let (st, s₁) = call (net.bind fd) s in
      let more = with_options-Keeps fd (join_group ∷ []) (return fd) (λ t. refl) s₁ in
      elim (Bool-cases (is_negative st)) [ inl e ↦ rw e refl | inr e ↦ rw e more ]

  open_socket-Keeps : Keeps (open_socket os net)
  unfolding open_socket
  open_socket-Keeps s =
      let (fd, s₁) = call net.datagram_socket s in
      let more =
        with_options-Keeps fd (broadcast ∷ reuse_address ∷ multicast_ttl ∷ [])
          (bind_and_join os net fd) (bind_and_join-Keeps fd) s₁ in
      elim (Bool-cases (is_negative fd)) [ inl e ↦ rw e refl | inr e ↦ rw e more ]

  pub find_chromecast-globals :
      (rounds fuel : ℕ) (address : Address) (s : Machine D W)
      → (find_chromecast os net rounds fuel address s).1.globals ≡ s.globals
  unfolding find_chromecast
  find_chromecast-globals rounds fuel address s =
      let (fd, s₁) = open_socket os net s in
      let (sent, s₂) = send_request os net fd s₁ in
      let (next, s₃) = query os net rounds fuel fd address s₂ in
      let opened = open_socket-Keeps s in
      let asked = send_request-Keeps os net (λ t. t.globals) leaves fd s₁ ∙ opened in
      let searched = query-Keeps os net (λ t. t.globals) leaves rounds fuel fd address s₂ ∙ asked in
      elim (Bool-cases (is_negative fd)) [
        | inl e ↦ rw e opened
        | inr e ↦ elim (Bool-cases (not sent)) [
          | inl f ↦ rw (e, f) asked
          | inr f ↦ rw (e, f) (ground (arith, searched))
        ]
      ]
