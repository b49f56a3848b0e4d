-- ===== src/Disjoint/Graph/Paths.antt =====
-- Paths in a graph without directions, and sets of nodes by labels along them.
use mathlib.Core.Path.{subst}
use geektime.Prelude.{ℕ, ◌≡◌, ◌⊎◌, inl, inr, refl, sym, ◌∙◌, List, ◌∷◌, arith}
use geektime.Disjoint.Labels.{union, own}

pub data Edge : List (ℕ × ℕ) → ℕ → ℕ → Type 0 where
  first : {a b : ℕ} {edges : List (ℕ × ℕ)} → Edge ((a, b) ∷ edges) a b
  later : {a b : ℕ} {e : ℕ × ℕ} {edges : List (ℕ × ℕ)} → Edge edges a b → Edge (e ∷ edges) a b

-- A path may follow an edge either way.
pub data Connected (edges : List (ℕ × ℕ)) (x : ℕ) : ℕ → Type 0 where
  stay : Connected edges x x
  forth : {y z : ℕ} → Connected edges x y → Edge edges y z → Connected edges x z
  back : {y z : ℕ} → Connected edges x y → Edge edges z y → Connected edges x z

Connected-trans :
    {edges : List (ℕ × ℕ)} {x y z : ℕ}
    → Connected edges x y
    → Connected edges y z
    → Connected edges x z
Connected-trans p stay = p
Connected-trans p (forth q e) = forth (Connected-trans p q) e
Connected-trans p (back q e) = back (Connected-trans p q) e

Connected-sym : {edges : List (ℕ × ℕ)} {x y : ℕ} → Connected edges x y → Connected edges y x
Connected-sym stay = stay
Connected-sym (forth q e) = Connected-trans (back stay e) (Connected-sym q)
Connected-sym (back q e) = Connected-trans (forth stay e) (Connected-sym q)

-- Nodes with one label are connected.
abbrev pub IsSound : List (ℕ × ℕ) → (ℕ → ℕ) → Type 0
IsSound edges f = (x y : ℕ) → f x ≡ f y → Connected edges x y

pub own-IsSound : (edges : List (ℕ × ℕ)) → IsSound edges own
own-IsSound edges x y same = subst (Connected edges x) same stay

-- Labels f' join x and y in the sets of the labels f, and nothing but what that implies.
pub record Joins (x y : ℕ) (f f' : ℕ → ℕ) : Type 0 where
  pub keeps : (s t : ℕ) → f s ≡ f t → f' s ≡ f' t
  pub joined : f' x ≡ f' y
  pub sound : (edges : List (ℕ × ℕ)) → IsSound edges f → Connected edges x y → IsSound edges f'

union-ways :
    (a b : ℕ) (f : ℕ → ℕ) (x : ℕ) → ((f x ≡ f a) × (union a b f x ≡ f b)) ⊎ (union a b f x ≡ f x)
union-ways a b f x = ground arith

union-IsSound :
    (a b : ℕ) (f : ℕ → ℕ) (edges : List (ℕ × ℕ))
    → IsSound edges f
    → Connected edges a b
    → IsSound edges (union a b f)
union-IsSound a b f edges sound path x y same = elim (union-ways a b f x) [
  | inl (old, new) ↦ elim (union-ways a b f y) [
    | inl (old', new') ↦ sound x y (old ∙ sym old')
    | inr still ↦
        Connected-trans (sound x a old) (Connected-trans path (sound b y (sym new ∙ same ∙ still)))
  ]
  | inr still ↦ elim (union-ways a b f y) [
    | inl (old', new') ↦
        Connected-trans (sound x b (sym still ∙ same ∙ new'))
          (Connected-trans (Connected-sym path) (sound a y (sym old')))
    | inr still' ↦ sound x y (sym still ∙ same ∙ still')
  ]
]

pub union-Joins : (a b : ℕ) (f : ℕ → ℕ) → Joins a b f (union a b f)
union-Joins a b f = record {
  keeps = λ s t same. ground arith;
  joined = ground arith;
  sound = union-IsSound a b f;
}

pub Joins-flip : (a b : ℕ) (f f' : ℕ → ℕ) → Joins a b f f' → Joins b a f f'
Joins-flip a b f f' j = record {
  keeps = j.keeps;
  joined = sym j.joined;
  sound = λ edges sound path. j.sound edges sound (Connected-sym path);
}

pub same-Joins : (a b : ℕ) (f : ℕ → ℕ) → f a ≡ f b → Joins a b f f
same-Joins a b f same = record {
  keeps = λ s t e. e;
  joined = same;
  sound = λ edges sound path. sound;
}

-- Where the ends of each edge have one label, connected nodes do.
pub Connected-label :
    {edges : List (ℕ × ℕ)} {x y : ℕ} (f : ℕ → ℕ)
    → ((a b : ℕ) → Edge edges a b → f a ≡ f b)
    → Connected edges x y
    → f x ≡ f y
Connected-label f all stay = refl
Connected-label f all (forth {y} {z} q e) = Connected-label f all q ∙ all y z e
Connected-label f all (back {y} {z} q e) = Connected-label f all q ∙ sym (all z y e)
