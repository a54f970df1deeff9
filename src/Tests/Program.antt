-- ===== src/Tests/Program.antt =====
-- ssl.cc and main.cc at concrete inputs.
use mathlib.Core.List.{Permᴰ}
use mathlib.Core.List.Permᴰ
use sponsoryeet.Prelude.{
  ℤ, map, ◌≡◌, ◌↔◌, refl, true, none, some, List, [], ◌∷◌, Bytes, codes, bytes_eq,
}
use sponsoryeet.State.{Globals}
use sponsoryeet.State.Bag.{library, one, both, without, without-both}
use sponsoryeet.Ssl.{Linker, null_symbols, Loader, initialize}
use sponsoryeet.Ssl.Resolved.{Settled, initialize-Settled}
use sponsoryeet.Ssl.Candidates.{in_order, initialize-candidates}
use sponsoryeet.Ssl.Closed.{Counts, initialize-Keeps}
use sponsoryeet.Options.{bytes_lt, insert, category_flags, parse_arg, parse_args}
use sponsoryeet.Options.CategorySet.{IsSorted}
use sponsoryeet.Options.NameSet.{set_of, add_all, dashed, parse_arg-NameSet}
use sponsoryeet.Options.AnyOrder.{parse_args-perm}
use sponsoryeet.Options.Meaning.{settled, parse_args-eq-settled}
use sponsoryeet.Tests.Toy.{World}
use sponsoryeet.Tests.Messages.{start, machine}

-- A machine with an OpenSSL in `/lib/`, whose functions stand at 7.
abbrev pub linker : Linker World
linker = record {
  dlopen = λ file w. (5, record w { handles = both (one (library 5)) w.handles });
  dlsym = λ handle name w. (7, w);
  dlclose = λ handle w. (tt, record w { handles = without (library handle) w.handles });
  start = λ pointer w. (tt, w);
  exists = λ file w. (bytes_eq file (codes "/lib/libssl.so"), w);
  getenv = λ name w. (none, w);
}

abbrev pub begin : Loader World
begin = record { symbols = null_symbols; world = machine.world }

linker-Counts : Counts linker (λ w. w.handles)
linker-Counts = record {
  opens = λ file w. refl;
  closes = λ handle w n h. without-both (library handle) w.handles n h;
  resolves = λ handle name w. refl;
  starts = λ pointer w. refl;
  looks = λ file w. refl;
  reads = λ name w. refl;
}

initialize-Settled_example :
    let (success, after) = initialize linker begin in Settled success after.symbols
initialize-Settled_example = initialize-Settled linker begin refl

initialize-Keeps_example : (initialize linker begin).1.world.handles ≡ begin.world.handles
initialize-Keeps_example = initialize-Keeps linker (λ w. w.handles) linker-Counts begin

initialize-candidates_example : initialize linker begin ≡ in_order linker begin
initialize-candidates_example = initialize-candidates linker begin

abbrev pub arguments : List Bytes
arguments = codes "--outro" ∷ codes "-v" ∷ codes "--intro" ∷ []

parse_args-eq-settled_example :
    parse_args category_flags arguments start ≡ settled category_flags arguments start
parse_args-eq-settled_example = parse_args-eq-settled category_flags arguments start

parse_args-perm_example :
    parse_args category_flags arguments start
    ≡ parse_args category_flags (codes "-v" ∷ codes "--outro" ∷ codes "--intro" ∷ []) start
parse_args-perm_example = parse_args-perm start (Permᴰ.refl category_flags) (Permᴰ.swap refl refl)

abbrev repeated : List Bytes
repeated = codes "sponsor" ∷ codes "intro" ∷ codes "sponsor" ∷ []

abbrev with_outro : Globals ℤ
with_outro = record start { categories = codes "outro" ∷ [] }

parse_arg-NameSet_example :
    (set : List Bytes) × (parse_arg (map dashed repeated) (codes "--all-categories") with_outro
      ≡ some (record with_outro { categories = set }))
    × IsSorted set
    × ((set_of (codes "intro" ∷ codes "outro" ∷ codes "sponsor" ∷ [])
          ≡ add_all repeated (set_of (codes "outro" ∷ [])))
        ↔ (codes "intro" ∷ codes "outro" ∷ codes "sponsor" ∷ [] ≡ set))
unfolding bytes_lt
parse_arg-NameSet_example =
    parse_arg-NameSet repeated with_outro (codes "intro" ∷ codes "outro" ∷ codes "sponsor" ∷ [])
      (tt, tt) ((refl, (refl, tt)), ((refl, tt), (tt, tt)))

-- Two categories, in order, and the text of usage.
chosen_categories :
    (parse_args category_flags arguments start
      ≡ some (record start { verbose = true; categories = codes "intro" ∷ codes "outro" ∷ [] }))
    × (parse_args category_flags (codes "-v" ∷ codes "--help" ∷ []) start ≡ none)
unfolding parse_args insert
chosen_categories = (refl, refl)
