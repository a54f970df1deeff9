-- ===== src/Program/Loaded.antt =====
-- What the rest of main.cc can rely on once the SSL library is loaded.
use sponsoryeet.Prelude.{
  ◌≡◌, ◌⊎◌, refl, subst, Bool, Bool-cases, Option-cases, inl, inr, some, List, Bytes,
}
use sponsoryeet.Cast.Protobuf.{Protobuf}
use sponsoryeet.Cast.Message.{CastMessage}
use sponsoryeet.State.{Double, Os, Matcher, Machine}
use sponsoryeet.Mdns.Query.{Net}
use sponsoryeet.Loop.Serve.{ErrorNumbers}
use sponsoryeet.Ssl.{Linker, null_symbols, Loader, initialize}
use sponsoryeet.Ssl.Resolved.{Resolved, Settled, initialize-Settled}
use sponsoryeet.Options.{parse_args}
use sponsoryeet.Program.{Terminal, Rounds, main}

module _ {D T W : Type 0} (double : Double D) (os : Os W) (m : Matcher D W)
    (p : Protobuf CastMessage) (net : Net W) (numbers : ErrorNumbers) (terminal : Terminal T W)
    (first : Bool) (rounds : Rounds) where
  -- Either every function of the SSL library that the program calls is resolved, or the program returns
  -- 1 with no pointer set and no variable changed. So no call goes through a null pointer, although
  -- the calls do not test for one.
  pub main-Resolved :
      (linker : Linker W) (order args : List Bytes) (s : Machine D W)
      → let (ret, symbols, after) =
          main double os m p net numbers terminal first rounds linker order args null_symbols s in
        Resolved symbols ⊎ ((ret ≡ some 1) × (symbols ≡ null_symbols) × (after.globals ≡ s.globals))
  unfolding main
  main-Resolved linker order args s =
      let start : Loader W = record { symbols = null_symbols; world = s.world } in
      let (loaded, after) = initialize linker start in
      let settled = initialize-Settled linker start refl in
      elim (Bool-cases loaded) [
        | inl e ↦
            let resolved = subst (λ b. Settled b after.symbols) e settled in
            let s₁ : Machine D W = record s { world = after.world } in
            elim (Option-cases (parse_args order args s₁.globals)) [
              | inl n ↦ rw (e, n) (inl resolved)
              | inr (g, k) ↦ rw (e, k) (inl resolved)
            ]
        | inr e ↦ rw e (inr (refl, subst (λ b. Settled b after.symbols) e settled, refl))
      ]
