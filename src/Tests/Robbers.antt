-- ===== src/Tests/Robbers.antt =====
-- Runs of the programs of `Robber`.
use geektime.Prelude.{
  ℕ, ◌≡◌, refl, none, some, List, [], ◌∷◌, load, ◌>>=◌, add_checked, store, arith,
}
use geektime.Robber.{
  rob_back, rob_front, rob_rolling, rob_offer, rob_circle, rob_circle_lambda, rob_circle_loops,
}
use geektime.Robber.Loot.{IsBest}
use geektime.Robber.Street.{street_variants}
use geektime.Robber.Circle.{IsBestCircle, circle_variants}

abbrev houses : List ℕ
houses = 2 ∷ 7 ∷ 9 ∷ 3 ∷ 5 ∷ []

street_run :
    (rob_back houses ≡ some 16) × (rob_front houses ≡ some 16) × (rob_offer houses ≡ some 16)
unfolding rob_back rob_front rob_offer add_checked store
street_run = (refl, refl, refl)

circle_run :
    (rob_circle houses ≡ some 14)
    × (rob_circle_lambda houses ≡ some 14)
    × (rob_circle_loops houses ≡ some 14)
unfolding rob_circle rob_circle_lambda rob_circle_loops add_checked
circle_run = (refl, refl, refl)

no_houses : (rob_offer [] ≡ none) × (rob_circle [] ≡ some 0) × (rob_circle_loops [] ≡ none)
unfolding rob_offer rob_circle rob_circle_loops
no_houses = (refl, refl, refl)

street_variants_example :
    (m : ℕ) × IsBest houses m
    × (rob_back houses ≡ some m)
    × (rob_front houses ≡ some m)
    × (rob_rolling houses ≡ some m)
    × (rob_offer houses ≡ (load houses 0 >>= λ x. some m))
street_variants_example = street_variants houses (omega arith)

circle_variants_example :
    (m : ℕ) × IsBestCircle houses m
    × (rob_circle houses ≡ some m)
    × (rob_circle_lambda houses ≡ some m)
    × (rob_circle_loops houses ≡ some m)
circle_variants_example = circle_variants 2 (7 ∷ 9 ∷ 3 ∷ 5 ∷ []) (omega arith)
