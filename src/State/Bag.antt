-- ===== src/State/Bag.antt =====
-- Resources that are in use, as a bag.
use mathlib.Core.Path.{fun_ext}
use sponsoryeet.Prelude.{
  ℕ, ◌+◌, ◌-◌, ◌≡◌, ap, Bool, false, if◌then◌else◌, ◌==◌, ℤ, pos, negsuc, arith,
}

-- A context or a handle of the SSL library, a descriptor of the system, or a handle of the dynamic
-- linker.
pub data Resource : Type 0 where
  ssl_context ssl_handle library : ℕ → Resource
  descriptor : ℤ → Resource

abbrev same_descriptor : ℤ → ℤ → Bool
same_descriptor (pos n) (pos k) = n == k
same_descriptor (negsuc n) (negsuc k) = n == k
same_descriptor (pos n) (negsuc k) = false
same_descriptor (negsuc n) (pos k) = false

abbrev same_resource : Resource → Resource → Bool
same_resource (ssl_context n) (ssl_context k) = n == k
same_resource (ssl_handle n) (ssl_handle k) = n == k
same_resource (library n) (library k) = n == k
same_resource (descriptor n) (descriptor k) = same_descriptor n k
same_resource _ _ = false

-- How often each resource is in use.
abbrev pub Bag : Type 0
Bag = Resource → ℕ

abbrev pub empty : Bag
empty r = 0

unfoldable pub one : Resource → Bag
one x r = if same_resource x r then 1 else 0

abbrev pub both : Bag → Bag → Bag
both a b r = a r + b r

-- A bag without one of the resources.
abbrev pub without : Resource → Bag → Bag
without x b r = b r - one x r

pub both-empty : (b : Bag) → both empty b ≡ b
both-empty b = fun_ext λ r. omega arith

pub both_assoc : (a b c : Bag) → both (both a b) c ≡ both a (both b c)
both_assoc a b c = fun_ext λ r. omega arith

pub without-both : (x : Resource) (b c : Bag) → b ≡ both (one x) c → without x b ≡ c
without-both x b c h = fun_ext λ r. let e = ap (λ k. k r) h in omega (arith, e)
