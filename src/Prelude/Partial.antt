-- ===== src/Prelude/Partial.antt =====
-- Code that may fault. `none` is undefined behaviour of the C++ code: an access out of bounds, a
-- null dereference, or fuel that ran out.
use Prim.Native.Nat.{ℕ, ◌+◌, ◌^◌, ◌<◌}
use mathlib.Core.Path.{◌≡◌}
use mathlib.Core.List.{List}
use mathlib.Core.Option.{Option, none, some}
use native.Mathlib.Omega.{arith}
use geektime.Prelude.Tests.{if◌then◌else◌, ltb}
use geektime.Prelude.Lists.{length, get_elem?, set}

infixl 5 ◌>>=◌ ◌>>◌
abbrev pub ◌>>=◌ {ℓ κ} : {A : Type ℓ} {B : Type κ} → Option A → (A → Option B) → Option B
none >>= f = none
some a >>= f = f a

abbrev pub ◌>>◌ {ℓ κ} : {A : Type ℓ} {B : Type κ} → Option A → Option B → Option B
m >> k = m >>= λ _. k

module _ {ℓ} {A : Type ℓ} where
  -- `v[i]` as a value.
  abbrev pub load : List A → ℕ → Option A
  load = get_elem?

  -- `v[i] = a`: a write out of bounds is undefined.
  unfoldable pub store : List A → ℕ → A → Option (List A)
  store xs i a = if ltb i (length xs) then some (set xs i a) else none

  pub store-some : (xs : List A) (i : ℕ) (a : A) → i < length xs → store xs i a ≡ some (set xs i a)
  unfolding store
  store-some xs i a h = ground arith

-- `a + b` of two `int` values that are not negative: signed overflow is undefined.
unfoldable pub add_checked : ℕ → ℕ → Option ℕ
add_checked a b = if ltb (a + b) (2 ^ 31) then some (a + b) else none

pub add_checked-some : (a b : ℕ) → a + b < 2 ^ 31 → add_checked a b ≡ some (a + b)
unfolding add_checked
add_checked-some a b h = ground arith
