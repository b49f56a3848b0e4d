-- ===== src/Disjoint/Holds.antt =====
-- What the array of parents and the labels have in common.
use mathlib.Core.Path.{subst}
use geektime.Prelude.{inl, inr, sym, ℕ, suc, ◌≤◌, ◌<◌, ◌≡◌, some, List, load, set, arith}
use geektime.Disjoint.{find}
use geektime.Disjoint.Roots.{Root, here, Root-end, Root-weaken, find-Root, attach}
use geektime.Disjoint.Labels.{union, own, union-same, union-cases}

-- The nodes 1 ... n.
abbrev pub IsNode : ℕ → ℕ → Type 0
IsNode n x = (1 ≤ x) × (x ≤ n)

-- The root of each node is its label, at the end of a path of at most `k` edges.
pub record Holds (P : ℕ → Type 0) (k : ℕ) (f : ℕ → ℕ) (d : List ℕ) : Type 0 where
  pub known : (x : ℕ) → P x → Root d x (f x) k
  pub label : (x : ℕ) → P x → P (f x)

pub find-Holds :
    (P : ℕ → Type 0) (k : ℕ) (f : ℕ → ℕ) (d : List ℕ) (fuel x : ℕ)
    → Holds P k f d
    → P x
    → k < fuel
    → (e : List ℕ) × (find fuel x d ≡ some (f x, e)) × Holds P k f e
find-Holds P k f d fuel x h node more =
    let (e, at, keeps) = find-Root fuel (h.known x node) more in
    (e, at, record { known = λ y is. keeps.1 y (f y) k (h.known y is); label = h.label })

pub two_finds :
    (P : ℕ → Type 0) (k : ℕ) (f : ℕ → ℕ) (d : List ℕ) (fuel a b : ℕ)
    → Holds P k f d
    → P a
    → P b
    → k < fuel
    → (d1 d2 : List ℕ) × (find fuel a d ≡ some (f a, d1))
      × (find fuel b d1 ≡ some (f b, d2))
      × Holds P k f d2
two_finds P k f d fuel a b h at_a at_b more =
    let (d1, first, h1) = find-Holds P k f d fuel a h at_a more in
    let (d2, second, h2) = find-Holds P k f d1 fuel b h1 at_b more in (d1, d2, first, second, h2)

pub Holds-weaken :
    (P : ℕ → Type 0) (k : ℕ) (f : ℕ → ℕ) (d : List ℕ) → Holds P k f d → Holds P (suc k) f d
Holds-weaken P k f d h = record {
  known = λ x is. Root-weaken (suc k) (omega arith) (h.known x is);
  label = h.label;
}

pub label-root :
    (P : ℕ → Type 0) (k : ℕ) (f : ℕ → ℕ) (d : List ℕ) (x : ℕ)
    → Holds P k f d
    → P x
    → load d (f x) ≡ some (f x)
label-root P k f d x h is = Root-end (h.known x is)

pub attach-Holds :
    (P : ℕ → Type 0) (k : ℕ) (f : ℕ → ℕ) (d : List ℕ) (a b : ℕ)
    → Holds P k f d
    → P a
    → P b
    → Holds P (suc k) (union a b f) (set d (f a) (f b))
attach-Holds P k f d a b h at_a at_b = record {
  known = λ x is.
      attach d (f a) (f b) (label-root P k f d a h at_a) (label-root P k f d b h at_b) x (f x) k
        (h.known x is);
  label = λ x is. elim (union-cases a b f x) [
    | inl to_b ↦ subst P (sym to_b) (h.label b at_b)
    | inr stays ↦ subst P (sym stays) (h.label x is)
  ];
}

pub same-Holds :
    (P : ℕ → Type 0) (k : ℕ) (f : ℕ → ℕ) (d : List ℕ) (a b : ℕ)
    → Holds P k f d
    → f a ≡ f b
    → Holds P (suc k) (union a b f) d
same-Holds P k f d a b h same = record {
  known = λ x is. rw (union-same a b f x same) (Root-weaken (suc k) (omega arith) (h.known x is));
  label = λ x is. rw (union-same a b f x same) (h.label x is);
}

-- At first each node is a set of its own.
pub start-Holds :
    (P : ℕ → Type 0) (d : List ℕ) → ((x : ℕ) → P x → load d x ≡ some x) → Holds P 0 own d
start-Holds P d own_parent = record { known = λ x is. here (own_parent x is); label = λ x is. is }
