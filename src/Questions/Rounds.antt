-- ===== src/Questions/Rounds.antt =====
-- services/questions of the API: which rounds the three questions are of.
use brand_blitz.Prelude.{
  ℕ, ◌≡◌, true, ◌&&◌, ◌||◌, not, List, [], ◌∷◌, ◌↔◌, arith, map, length, ◌==◌,
}
use brand_blitz.Texts.{is_blank}
use brand_blitz.Questions.{Brand, generate_challenge_questions}

-- There are always three questions. They are of the rounds 1, 2 and 3, in this order, exactly where
-- the brand has a tagline, and a claim or no product image, or where it has none of the three.
pub generate_challenge_questions-rounds :
    (random : ℕ → ℕ → ℕ) (brand : Brand) (pool : List Brand)
    → (length (generate_challenge_questions random brand pool) ≡ 3)
      × ((map (λ q. q.round) (generate_challenge_questions random brand pool) ≡ 1 ∷ 2 ∷ 3 ∷ []) ↔ (
          (not (is_blank brand.tagline) && (not (is_blank brand.usp) || brand.product_images == 0)
            || is_blank brand.tagline && (is_blank brand.usp && brand.product_images == 0))
          ≡ true))
unfolding generate_challenge_questions
generate_challenge_questions-rounds random brand pool = ground arith
