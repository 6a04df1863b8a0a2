-- ===== src/Questions.antt =====
-- services/questions of the API: the three questions that are made of a brand. Each call of `shuffle`
-- has random numbers of its own: `Math.floor(Math.random() * (i + 1))` is the number for `i`, reduced
-- to its range. A text that is missing is the empty one, which is as falsy.
pub mod Shuffled
pub mod Answered
pub mod Rounds
use brand_blitz.Prelude.{
  ℕ, zero, suc, ◌+◌, ◌-◌, ◌*◌, ◌%◌, Bool, true, false, not, List, [], ◌∷◌, ◌++◌, Option, none, some,
  length, take, map, keep, get_elem?, ltb, ◌==◌, if◌then◌else◌,
}
use brand_blitz.Texts.{Text, is_blank, codes, same_text}
use brand_blitz.Usdc.Decimal.{to_string}
use brand_blitz.Scoring.{Choice, a, b, c, d}

module _ {ℓ} {A : Type ℓ} where
  abbrev pub set_at : ℕ → A → List A → List A
  set_at i v [] = []
  set_at zero v (x ∷ xs) = v ∷ xs
  set_at (suc i) v (x ∷ xs) = x ∷ set_at i v xs

  -- `[arr[i], arr[j]] = [arr[j], arr[i]]`.
  unfoldable pub swap : ℕ → ℕ → List A → List A
  swap i j xs = elim (get_elem? xs i) [
    | none ↦ xs
    | some x ↦ elim (get_elem? xs j) [ none ↦ xs | some y ↦ set_at j x (set_at i y xs) ]
  ]

  -- The loop from `i` down to 1.
  unfoldable pub shuffle_from : (ℕ → ℕ) → ℕ → List A → List A
  unfolding swap
  shuffle_from random zero xs = xs
  shuffle_from random (suc i) xs =
      shuffle_from random i (swap (suc i) (random (suc i) % (suc i + 1)) xs)

  unfoldable pub shuffle : (ℕ → ℕ) → List A → List A
  unfolding shuffle_from
  shuffle random xs = shuffle_from random (length xs - 1) xs

-- `fallbacks[n] ?? ...`.
abbrev pub fallback : ℕ → Text
fallback n =
    elim (get_elem? (codes "Option A" ∷ codes "Option B" ∷ codes "Option C" ∷ codes "Option D" ∷ [])
      n) [ none ↦ codes "Option " ++ to_string (n + 1) | some text ↦ text ]

abbrev pub pad_with : ℕ → List Text → List Text
pad_with zero result = result
pad_with (suc missing) result = pad_with missing (result ++ (fallback (length result) ∷ []))

unfoldable pub pick_distractors : (ℕ → ℕ) → List Text → Text → ℕ → List Text
unfolding shuffle
pick_distractors random pool exclude count =
    let result = take count (shuffle random (keep (λ item. not (same_text item exclude)) pool)) in
    pad_with (count - length result) result

-- `indexOf`, or `none` for -1.
unfoldable pub index_of : Text → List Text → Option ℕ
index_of text [] = none
index_of text (x ∷ xs) =
    let rest = index_of text xs in
    if same_text x text then some 0 else elim rest [ none ↦ none | some i ↦ some (i + 1) ]

abbrev pub option_letter : Option ℕ → Choice
option_letter index = elim index [
  | none ↦ a
  | some i ↦ if i == 1 then b else if i == 2 then c else if i == 3 then d else a
]

pub data QuestionType : Type 0 where
  which_brand which_tagline which_product : QuestionType

pub record RoundTemplateOverride : Type 0 where
  pub question_text : Option Text
  pub prompt_type : Option Text

pub record Brand : Type 0 where
  pub name : Text
  pub tagline : Text
  pub usp : Text
  pub product_images : ℕ
  pub question_template : ℕ → RoundTemplateOverride

pub record QuestionDraft : Type 0 where
  pub round : ℕ
  pub question_type : QuestionType
  pub prompt_type : Text
  pub question_text : Text
  pub correct_answer : Text
  pub options : List Text
  pub correct_option : Choice

abbrev override_or : Option Text → Text → Text
override_or text default = elim text [ none ↦ default | some t ↦ t ]

-- A question whose options are the answer and three distractors; `draw` numbers its two shuffles.
abbrev pub options_of : (ℕ → ℕ → ℕ) → ℕ → List Text → Text → List Text
options_of random draw pool answer =
    shuffle (random (draw + 1)) (answer ∷ pick_distractors (random draw) pool answer 3)

question_of : Brand → ℕ → QuestionType → Text → Text → Text → List Text → QuestionDraft
unfolding index_of
question_of brand round kind prompt text answer options = record {
  round = round;
  question_type = kind;
  prompt_type = override_or (brand.question_template round).prompt_type prompt;
  question_text = override_or (brand.question_template round).question_text text;
  correct_answer = answer;
  options = options;
  correct_option = option_letter (index_of answer options);
}

abbrev filled : List Text → List Text
filled texts = keep (λ t. not (is_blank t)) texts

abbrev pub names : List Brand → List Text
names pool = map (λ e. e.name) pool

module _ (random : ℕ → ℕ → ℕ) (brand : Brand) (pool : List Brand) where
  tagline_question : List QuestionDraft
  unfolding shuffle pick_distractors question_of
  tagline_question =
      if is_blank brand.tagline
      then []
      else question_of brand 1 which_tagline (codes "logo")
          (codes "Which tagline belongs to this brand?") brand.tagline
          (options_of random 0 (filled (map (λ e. e.tagline) pool)) brand.tagline)
        ∷ []

  usp_question : List QuestionDraft
  unfolding shuffle pick_distractors question_of
  usp_question =
      if is_blank brand.usp
      then []
      else question_of brand 2 which_brand (codes "tagline")
          (codes "Which brand is described by this claim: " ++ (brand.usp ++ codes "?")) brand.name
          (options_of random 2 (filled (names pool)) brand.name)
        ∷ []

  product_question : List QuestionDraft
  unfolding shuffle pick_distractors question_of
  product_question =
      if brand.product_images == 0
      then []
      else question_of brand 3 which_product (codes "productImage1")
          (codes "Which brand makes this product?") brand.name
          (options_of random 4 (filled (names pool)) brand.name)
        ∷ []

  -- The loop `while (questions.length < 3)`, with the number of questions that are missing.
  pub complete : ℕ → List QuestionDraft → List QuestionDraft
  unfolding shuffle pick_distractors question_of
  complete zero questions = questions
  complete (suc missing) questions = complete missing (
      questions
      ++ (question_of brand (length questions + 1) which_brand (codes "logo")
            (codes "What is the name of this brand?") brand.name
            (options_of random (6 + 2 * length questions) (names pool) brand.name)
          ∷ []))

  unfoldable pub generate_challenge_questions : List QuestionDraft
  unfolding complete tagline_question usp_question product_question
  generate_challenge_questions =
      let questions = tagline_question ++ (usp_question ++ product_question) in
      take 3 (complete (3 - length questions) questions)
