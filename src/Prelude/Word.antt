-- ===== src/Prelude/Word.antt =====
-- Machine words as their bit patterns: `int` modulo 2 ^ 32, `long` and `size_t` modulo 2 ^ 64.
-- A sum or a product that overflows wraps around, as the two's complement hardware does.
use Prim.Native.Nat.{ℕ, ◌+◌, ◌*◌, ◌/◌, ◌%◌, ◌^◌}
use mathlib.Core.Path.{◌≡◌, ap, sym, ◌∙◌}
use native.Mathlib.Nat.{add-mul-mod_self_right, div-add-mod', mul_comm}
use native.Mathlib.Omega.{arith}

abbrev pub int_mod : ℕ
int_mod = 2 ^ 32

abbrev pub long_mod : ℕ
long_mod = 2 ^ 64

-- `a + b` in `int`.
abbrev pub add_int : ℕ → ℕ → ℕ
add_int a b = (a + b) % int_mod

-- `a + b` and `a * b` in `long`.
abbrev pub add_long : ℕ → ℕ → ℕ
add_long a b = (a + b) % long_mod

abbrev pub mul_long : ℕ → ℕ → ℕ
mul_long a b = a * b % long_mod

-- A product depends on its factors only modulo `m`.
mul-mod_left : (a b m : ℕ) → a % m * b % m ≡ a * b % m
mul-mod_left a b m =
    let whole : a % m * b + a / m * b * m ≡ a * b =
      omega (arith, ap (λ (t : ℕ). t * b) (div-add-mod' a m)) in
    sym (add-mul-mod_self_right (a % m * b) (a / m * b) m) ∙ ap (λ t. t % m) whole

pub mul-mod-mod : (a b m : ℕ) → a % m * (b % m) % m ≡ a * b % m
mul-mod-mod a b m =
    mul-mod_left a (b % m) m ∙ rw (mul_comm a (b % m), mul_comm a b) (mul-mod_left b a m)
