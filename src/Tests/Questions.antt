-- ===== src/Tests/Questions.antt =====
-- The questions of a challenge.
use brand_blitz.Prelude.{
  ℕ, ◌≡◌, ◌↔◌, refl, true, ◌&&◌, ◌||◌, not, [], ◌∷◌, none, map, length, All, ◌==◌,
}
use brand_blitz.Texts.{is_blank, codes, same_text}
use brand_blitz.Questions.{Brand, generate_challenge_questions}
use brand_blitz.Questions.Rounds.{generate_challenge_questions-rounds}
use brand_blitz.Questions.Answered.{Answered, generate_challenge_questions-Answered}

abbrev acme : Brand
acme = record {
  name = codes "Acme";
  tagline = codes "Catch it";
  usp = [];
  product_images = 2;
  question_template = λ round. record { question_text = none; prompt_type = none };
}

abbrev random : ℕ → ℕ → ℕ
random draw i = draw

generate_challenge_questions-rounds_example :
    (length (generate_challenge_questions random acme []) ≡ 3)
    × ((map (λ q. q.round) (generate_challenge_questions random acme []) ≡ 1 ∷ 2 ∷ 3 ∷ []) ↔ (
        (not (is_blank acme.tagline) && (not (is_blank acme.usp) || acme.product_images == 0)
          || is_blank acme.tagline && (is_blank acme.usp && acme.product_images == 0))
        ≡ true))
generate_challenge_questions-rounds_example = generate_challenge_questions-rounds random acme []

generate_challenge_questions-Answered_example :
    All Answered (generate_challenge_questions random acme (acme ∷ []))
unfolding same_text
generate_challenge_questions-Answered_example =
    generate_challenge_questions-Answered random acme (acme ∷ [])
      (record { first = refl; second = refl; third = refl })
      (record { first = refl; second = refl; third = refl })
