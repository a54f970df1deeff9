-- ===== src/Mdns/Query/Released.antt =====
-- The socket of `findChromecast` of mdns.h.
use sponsoryeet.State.Bag.{Bag, descriptor, empty, one, both, both-empty}
use sponsoryeet.Prelude.{
  ℕ, ◌≡◌, refl, sym, ap, ◌∙◌, Bool, true, false, not, Bool-cases, Option, none, some, inl, inr,
  List, [], ◌∷◌, if◌then◌else◌, ℤ, pos, negsuc, Bytes,
}
use sponsoryeet.State.{Address, Os, Machine, Action, return, call}
use sponsoryeet.State.World.{KeepsWorld}
use sponsoryeet.Connection.Released.{made}
use sponsoryeet.Mdns.Query.{
  SocketOption, broadcast, reuse_address, multicast_ttl, join_group, Net, Next, searching, found,
  aborted, hung, is_negative, with_options, bind_and_join, open_socket, send_request, query,
  find_chromecast,
}
use sponsoryeet.Mdns.Query.Kept.{Leaves, send_request-Keeps, query-Keeps}

-- Which sockets are open: `socket` adds the one that it makes, `close` of an open one takes that one
-- off, and no other call of the discovery changes which are open.
pub record Sockets {W : Type 0} (os : Os W) (net : Net W) (held : W → Bag) : Type 0 where
  pub new : (w : W) → let (fd, w') = net.datagram_socket w in held w' ≡ both (made fd) (held w)
  pub closes :
      (fd : ℤ) (w : W) (n : Bag)
      → held w ≡ both (one (descriptor fd)) n
      → held (os.close fd w).1 ≡ n
  pub options : (fd : ℤ) (o : SocketOption) (w : W) → held (net.set_option fd o w).1 ≡ held w
  pub binds : (fd : ℤ) (w : W) → held (net.bind fd w).1 ≡ held w
  pub sends : (fd : ℤ) (text : Bytes) (w : W) → held (net.send_to fd text w).1 ≡ held w
  pub selects : (fd : ℤ) (w : W) → held (net.select fd w).1 ≡ held w
  pub keys : (w : W) → held (net.getchar w).1 ≡ held w
  pub receives : (fd : ℤ) (room : ℕ) (w : W) → held (net.recv_from fd room w).1 ≡ held w
  pub runs : (w : W) → held (net.running w).1 ≡ held w
  pub times : (w : W) → held (os.time w).1 ≡ held w

-- The socket, if the search has not come back.
abbrev pub left_open : ℤ → Option (Bool × Address) → Bag
left_open fd none = one (descriptor fd)
left_open fd (some answer) = empty

made_unless_negative : (fd : ℤ) → is_negative fd ≡ false → made fd ≡ one (descriptor fd)
made_unless_negative (pos n) h = refl
made_unless_negative (negsuc n) h = cc

none_if_negative : (fd : ℤ) → is_negative fd ≡ true → made fd ≡ empty
none_if_negative (pos n) h = cc
none_if_negative (negsuc n) h = refl

module _ {D W : Type 0} (os : Os W) (net : Net W) (held : W → Bag)
    (sockets : Sockets os net held) where
  abbrev Keeps : {A : Type 0} → Action D W A → Type 0
  Keeps = KeepsWorld held

  -- An action that ends with a socket or, if it fails, with none.
  abbrev Makes : Action D W ℤ → Bag → Machine D W → Type 0
  Makes x n s = let (fd, after) = x s in held after.world ≡ both (made fd) n

  close-held :
      (fd : ℤ) (s : Machine D W) (n : Bag)
      → held s.world ≡ both (one (descriptor fd)) n
      → held (os.close fd s.world).1 ≡ both empty n
  close-held fd s n h = sockets.closes fd s.world n h ∙ sym (both-empty n)

  with_options-holds :
      (fd : ℤ) (options : List SocketOption) (after : Action D W ℤ) (n : Bag) (s : Machine D W)
      → ((t : Machine D W) → held t.world ≡ both (one (descriptor fd)) n → Makes after n t)
      → held s.world ≡ both (one (descriptor fd)) n
      → Makes (with_options os net fd options after) n s
  unfolding with_options
  with_options-holds fd [] after n s later h = later s h
  with_options-holds fd (option ∷ rest) after n s later h =
      let (st, s₁) = call (net.set_option fd option) s in
      let same = sockets.options fd option s.world ∙ h in
      let more = with_options-holds fd rest after n s₁ later same in
      elim (Bool-cases (is_negative st)) [
        | inl e ↦ rw e (close-held fd s₁ n same)
        | inr e ↦ rw e more
      ]

  bind_and_join-holds :
      (fd : ℤ) (n : Bag) (s : Machine D W)
      → made fd ≡ one (descriptor fd)
      → held s.world ≡ both (one (descriptor fd)) n
      → Makes (bind_and_join os net fd) n s
  unfolding bind_and_join
  bind_and_join-holds fd n s one_made h =
      let (st, s₁) = call (net.bind fd) s in
      let same = sockets.binds fd s.world ∙ h in
      elim (Bool-cases (is_negative st)) [
        | inl e ↦ rw e (close-held fd s₁ n same)
        | inr e ↦ rw e (
            with_options-holds fd (join_group ∷ []) (return fd) n s₁
              (λ t k. k ∙ ap (λ b. both b n) (sym one_made)) same)
      ]

  open_socket-holds : (s : Machine D W) → Makes (open_socket os net) (held s.world) s
  unfolding open_socket
  open_socket-holds s =
      let (fd, s₁) = call net.datagram_socket s in
      let new = sockets.new s.world in
      elim (Bool-cases (is_negative fd)) [
        | inl e ↦ rw e (new ∙ ap (λ b. both b (held s.world)) (none_if_negative fd e))
        | inr e ↦
            let single = made_unless_negative fd e in
            rw e (
              with_options-holds fd (broadcast ∷ reuse_address ∷ multicast_ttl ∷ [])
                (bind_and_join os net fd) (held s.world) s₁
                (λ t k. bind_and_join-holds fd (held s.world) t single k)
                (new ∙ ap (λ b. both b (held s.world)) single))
      ]

  leaves : Leaves {D = D} os net (λ s. held s.world)
  leaves = record {
    sends = λ fd text s. sockets.sends fd text s.world;
    selects = λ fd s. sockets.selects fd s.world;
    keys = λ s. sockets.keys s.world;
    receives = λ fd room s. sockets.receives fd room s.world;
    runs = λ s. sockets.runs s.world;
    times = λ s. sockets.times s.world;
  }

  -- How `findChromecast` ends.
  abbrev finish : ℤ → Next → Action D W (Option (Bool × Address))
  finish fd next = elim next [
    | found s ↦
        λ t. (some (true, record { host = s.address.host; port = 8009 }), (call (os.close fd) t).1)
    | aborted s ↦ λ t. (some (false, s.address), (call (os.close fd) t).1)
    | _ ↦ return none
  ]

  finish-holds :
      (fd : ℤ) (next : Next) (s : Machine D W) (n : Bag)
      → held s.world ≡ both (one (descriptor fd)) n
      → let (result, after) = finish fd next s in held after.world ≡ both (left_open fd result) n
  finish-holds fd (searching search) s n h = h
  finish-holds fd (found search) s n h = close-held fd s n h
  finish-holds fd (aborted search) s n h = close-held fd s n h
  finish-holds fd hung s n h = h

  -- `findChromecast` closes the very socket that it opens, and no other, whichever step of opening it
  -- fails and whether or not it finds a device, except for two cases, in which exactly that socket stays
  -- open: the request cannot be sent on it, or the search has not come back.
  pub find_chromecast-holds :
      (rounds fuel : ℕ) (address : Address) (s : Machine D W)
      → let (fd, opened) = open_socket os net s in
        let sent = (send_request os net fd opened).0 in
        let (result, after) = find_chromecast os net rounds fuel address s in
        held after.world
        ≡ both
            (if is_negative fd
              then empty
              else if not sent
              then one (descriptor fd)
              else left_open fd result)
            (held s.world)
  unfolding find_chromecast
  find_chromecast-holds rounds fuel address s =
      let (fd, opened) = open_socket os net s in
      let (sent, asked) = send_request os net fd opened in
      let (next, over) = query os net rounds fuel fd address asked in
      let opened_ = open_socket-holds s in
      let same = send_request-Keeps os net (λ t. held t.world) leaves fd opened in
      let same' = query-Keeps os net (λ t. held t.world) leaves rounds fuel fd address asked in
      elim (Bool-cases (is_negative fd)) [
        | inl e ↦ rw e (opened_ ∙ ap (λ b. both b (held s.world)) (none_if_negative fd e))
        | inr e ↦
            let known = opened_ ∙ ap (λ b. both b (held s.world)) (made_unless_negative fd e) in
            elim (Bool-cases (not sent)) [
              | inl f ↦ rw (e, f) (same ∙ known)
              | inr f ↦ rw (e, f) (finish-holds fd next over (held s.world) (same' ∙ same ∙ known))
            ]
      ]
