-- ===== src/Mdns/Query/Kept.antt =====
-- The requests and the search of mdns.h leave alone what their calls leave alone.
use sponsoryeet.Prelude.{
  ℕ, zero, suc, ◌+◌, ◌≡◌, refl, ◌∙◌, Bool, true, false, not, ◌||◌, Bool-cases, Option-cases, inl,
  inr, if◌then◌else◌, ◌==◌, ltb, ℤ, pos, Bytes,
}
use sponsoryeet.State.{Address, Os, Machine, Action, return, call}
use sponsoryeet.Mdns.Packet.{query_name, request_packet}
use sponsoryeet.Mdns.Query.{
  Events, Net, Search, Next, searching, found, aborted, hung, is_negative, is_nothing, quits,
  send_data, send_request, receive, query_round, go_on, query_loop, query,
}

abbrev Keeps : {D W V A : Type 0} → (Machine D W → V) → Action D W A → Type 0
Keeps {D} {W} view x = (s : Machine D W) → view (x s).1 ≡ view s

-- The calls of a search leave the view alone.
pub record Leaves {D W V : Type 0} (os : Os W) (net : Net W) (view : Machine D W → V) : Type 0 where
  pub sends : (fd : ℤ) (text : Bytes) → Keeps view (call (net.send_to fd text))
  pub selects : (fd : ℤ) → Keeps view (call (net.select fd))
  pub keys : Keeps view (call net.getchar)
  pub receives : (fd : ℤ) (room : ℕ) → Keeps view (call (net.recv_from fd room))
  pub runs : Keeps view (call net.running)
  pub times : Keeps view (call os.time)

module _ {D W V : Type 0} (os : Os W) (net : Net W) (view : Machine D W → V)
    (calls : Leaves os net view) where
  choose-Keeps :
      {A : Type 0} (b : Bool) (x y : Action D W A)
      → Keeps view x
      → Keeps view y
      → Keeps view (if b then x else y)
  choose-Keeps true x y h k = h
  choose-Keeps false x y h k = k

  pub send_request-Keeps : (fd : ℤ) → Keeps view (send_request os net fd)
  unfolding send_request send_data
  send_request-Keeps fd s = elim (Option-cases (request_packet query_name)) [
    | inl e ↦ rw (send_request, e) refl
    | inr (packet, e) ↦ rw (send_request, send_data, e) (calls.sends fd packet s)
  ]

  receive-Keeps :
      (fuel : ℕ) (fd : ℤ) (events : Events) (search : Search)
      → Keeps view (receive os net fuel fd events search)
  unfolding receive
  receive-Keeps fuel fd events search s =
      let (key, s₁) = (if events.stdin then call net.getchar else return (pos 0)) s in
      let same =
        choose-Keeps events.stdin (call net.getchar) (return (pos 0)) (λ t. calls.keys t)
          (λ t. refl) s in
      elim (Bool-cases (quits key)) [
        | inl e ↦ rw e same
        | inr e ↦ elim (Bool-cases (not events.socket)) [
          | inl f ↦ rw (e, f) same
          | inr f ↦ rw (e, f) (calls.receives fd search.capacity s₁ ∙ same)
        ]
      ]

  query_round-Keeps :
      (fuel : ℕ) (fd : ℤ) (search : Search) → Keeps view (query_round os net fuel fd search)
  unfolding query_round
  query_round-Keeps fuel fd search s =
      let (now, s₁) = call os.time s in
      let timed = calls.times s in
      let s₂ = (send_request os net fd s₁).1 in
      let (events, s₃) = call (net.select fd) s₁ in
      let waited = calls.selects fd s₁ ∙ timed in
      let idle =
        os.errno s₃.world == net.eintr || is_nothing events.count || is_negative events.count in
      elim (Bool-cases (ltb search.end_time now)) [
        | inl e ↦ rw e (calls.times s₂ ∙ send_request-Keeps fd s₁ ∙ timed)
        | inr e ↦ elim (Bool-cases idle) [
          | inl f ↦ rw (e, f) waited
          | inr f ↦ rw (e, f) (receive-Keeps fuel fd events search s₃ ∙ waited)
        ]
      ]

  go_on-Keeps :
      (again : Search → Action D W Next) (next : Next)
      → ((search : Search) → Keeps view (again search))
      → Keeps view (go_on os net again next)
  unfolding go_on
  go_on-Keeps again (searching search) h s =
      let (more, s₁) = call net.running s in
      choose-Keeps more (again search) (return (aborted search)) (h search) (λ t. refl) s₁
      ∙ calls.runs s
  go_on-Keeps again (found search) h s = refl
  go_on-Keeps again (aborted search) h s = refl
  go_on-Keeps again hung h s = refl

  query_loop-Keeps :
      (rounds fuel : ℕ) (fd : ℤ) (search : Search)
      → Keeps view (query_loop os net rounds fuel fd search)
  unfolding query_loop
  query_loop-Keeps zero fuel fd search s = refl
  query_loop-Keeps (suc rounds) fuel fd search s =
      let (next, s₁) = query_round os net fuel fd search s in
      go_on-Keeps (query_loop os net rounds fuel fd) next (query_loop-Keeps rounds fuel fd) s₁
      ∙ query_round-Keeps fuel fd search s

  pub query-Keeps :
      (rounds fuel : ℕ) (fd : ℤ) (address : Address)
      → Keeps view (query os net rounds fuel fd address)
  unfolding query
  query-Keeps rounds fuel fd address s =
      let (now, s₁) = call os.time s in
      query_loop-Keeps rounds fuel fd
        (record { capacity = 512; end_time = now + 10; address = address }) s₁
      ∙ calls.times s
