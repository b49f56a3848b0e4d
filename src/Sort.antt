-- ===== src/Sort.antt =====
-- The sorts of algorithm/CPP/topic/Sort. A `std::vector<int>` is a list; only the order of the
-- values matters, so an `int` x stands here as x + 2 ^ 31. An index is smaller than the size, which
-- is taken to fit an `int`.
pub mod Bubble
pub mod Insertion
pub mod Selection
pub mod Shell
pub mod Agree
use geektime.Prelude.{
  hit, count, ℕ, zero, suc, ◌+◌, ◌<◌, ◌≤◌, ◌≡◌, ◌≢◌, refl, ap, Option, some, ◌>>=◌, List, [], ◌∷◌,
  load, store, length, get_elem?, set, length-set, ◌==◌, if◌then◌else◌, arith, store-some,
}

-- `std::swap(d[i], d[j])`.
unfoldable pub swap : List ℕ → ℕ → ℕ → Option (List ℕ)
swap d i j = do a ← load d i; b ← load d j; d' ← store d i b; store d' j a

-- d[i], and 0 out of bounds.
abbrev pub val : List ℕ → ℕ → ℕ
val [] i = 0
val (x ∷ xs) zero = x
val (x ∷ xs) (suc i) = val xs i

abbrev pub IsSorted : List ℕ → Type 0
IsSorted d = (i : ℕ) → suc i < length d → val d i ≤ val d (suc i)

-- Sorted, and with every value as often as before.
abbrev pub Sorts : List ℕ → List ℕ → Type 0
Sorts d e = IsSorted e × (length e ≡ length d) × ((v : ℕ) → count v e ≡ count v d)

pub load-val : (d : List ℕ) (i : ℕ) → i < length d → load d i ≡ some (val d i)
load-val [] i h = elim h [ ]
load-val (x ∷ d) zero h = refl
load-val (x ∷ d) (suc i) h = load-val d i (omega arith)

pub val-set_self : (d : List ℕ) (i a : ℕ) → i < length d → val (set d i a) i ≡ a
val-set_self [] i a h = elim h [ ]
val-set_self (x ∷ d) zero a h = refl
val-set_self (x ∷ d) (suc i) a h = val-set_self d i a (omega arith)

pub val-set_ne : (d : List ℕ) (i j a : ℕ) → i ≢ j → val (set d i a) j ≡ val d j
val-set_ne [] i j a h = refl
val-set_ne (x ∷ d) zero zero a h = absurd (h refl)
val-set_ne (x ∷ d) zero (suc j) a h = refl
val-set_ne (x ∷ d) (suc i) zero a h = refl
val-set_ne (x ∷ d) (suc i) (suc j) a h = val-set_ne d i j a (λ e. h (ap suc e))

pub count-set :
    (v : ℕ) (d : List ℕ) (i a : ℕ)
    → i < length d
    → count v (set d i a) + hit v (val d i) ≡ count v d + hit v a
count-set v [] i a h = elim h [ ]
count-set v (x ∷ d) zero a h = omega arith
count-set v (x ∷ d) (suc i) a h = omega (arith, count-set v d i a (omega arith))

-- What `swap` leaves.
pub record Swapped (d : List ℕ) (i j : ℕ) (e : List ℕ) : Type 0 where
  pub size : length e ≡ length d
  pub counts : (v : ℕ) → count v e ≡ count v d
  pub first : val e i ≡ val d j
  pub second : val e j ≡ val d i
  pub others : (k : ℕ) → k ≢ i → k ≢ j → val e k ≡ val d k

pub swap-Swapped :
    (d : List ℕ) (i j : ℕ)
    → i < length d
    → j < length d
    → i ≢ j
    → (e : List ℕ) × (swap d i j ≡ some e) × Swapped d i j e
unfolding swap
swap-Swapped d i j hi hj ne =
    let a = val d i in
    let b = val d j in
    let d' = set d i b in
    let size' : length d' ≡ length d = length-set d i b in
    let hj' : j < length d' = omega (arith, size') in
    let was : val d' j ≡ b = val-set_ne d i j b ne in
    (
      set d' j a,
      rw (load-val d i hi, load-val d j hj, store-some d i b hi, store-some d' j a hj') refl,
      record {
        size = omega (arith, length-set d' j a, size');
        counts = λ v. omega (arith, count-set v d i b hi, count-set v d' j a hj', ap (hit v) was);
        first = omega (arith, val-set_ne d' j i a (λ e. ne (omega arith)), val-set_self d i b hi);
        second = val-set_self d' j a hj';
        others = λ k ki kj. omega (
          arith,
          val-set_ne d' j k a (λ e. kj (omega arith)),
          val-set_ne d i k b (λ e. ki (omega arith)),
        );
      },
    )
