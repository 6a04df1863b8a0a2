-- ===== src/Questions/Answered.antt =====
-- services/questions of the API: the options of a question hold its answer once, where its letter says.
use brand_blitz.Prelude.{
  ℕ, zero, suc, ◌+◌, ◌-◌, ◌*◌, ◌≤◌, ◌<◌, ◌≡◌, refl, ap, ◌∙◌, inl, inr, List, [], ◌∷◌, ◌++◌, some,
  arith, length, take, get_elem?, map, All, All-append, Bool-cases, ◌==◌,
}
use brand_blitz.Texts.{Text, is_blank, same_text, same_text_iff, times}
use brand_blitz.Scoring.{Choice, a, b, c, d}
use brand_blitz.Questions.Shuffled.{Plain, pick_keeps, shuffle-keeps}
use brand_blitz.Questions.{
  pick_distractors, index_of, option_letter, Brand, QuestionType, QuestionDraft, options_of,
  question_of, tagline_question, usp_question, product_question, complete,
  generate_challenge_questions, filled, names,
}

index_of-there :
    (x : Text) (xs : List Text)
    → 1 ≤ times x xs
    → (i : ℕ) × (index_of x xs ≡ some i) × (i < length xs) × (get_elem? xs i ≡ some x)
unfolding index_of
index_of-there x [] h = absurd (omega arith)
index_of-there x (y ∷ ys) h = elim (Bool-cases (same_text y x)) [
  | inl e ↦ (0, rw (index_of, e) refl, omega arith, ap some ((same_text_iff y x).0 e))
  | inr e ↦
      let (i, found, low, at) = index_of-there x ys (ground (arith, e)) in
      (suc i, rw (index_of, e) (rw found (ap some (omega arith))), omega (arith, low), at)
]

abbrev pub place_of : Choice → ℕ
place_of a = 0
place_of b = 1
place_of c = 2
place_of d = 3

place-letter : (i : ℕ) → i < 4 → place_of (option_letter (some i)) ≡ i
place-letter i h = ground arith

-- The question has four options, of which one is the answer: the one that its letter names.
pub record Answered (q : QuestionDraft) : Type 0 where
  pub four : length q.options ≡ 4
  pub lettered : get_elem? q.options (place_of q.correct_option) ≡ some q.correct_answer
  pub alone : times q.correct_answer q.options ≡ 1

letter-Answered :
    (answer : Text) (options : List Text)
    → times answer options ≡ 1
    → length options ≡ 4
    → get_elem? options (place_of (option_letter (index_of answer options))) ≡ some answer
letter-Answered answer options t l =
    let (i, found, low, at) = index_of-there answer options (omega (arith, t)) in
    rw found (ap (get_elem? options) (place-letter i (omega (arith, low, l))) ∙ at)

options-keeps :
    (random : ℕ → ℕ → ℕ) (draw : ℕ) (pool : List Text) (answer : Text)
    → Plain answer
    → (times answer (options_of random draw pool answer) ≡ 1)
      × (length (options_of random draw pool answer) ≡ 4)
options-keeps random draw pool answer p =
    let (t, l) = pick_keeps (random draw) pool answer p in
    let all_ = answer ∷ pick_distractors (random draw) pool answer 3 in
    let (t', l') = shuffle-keeps answer (random (draw + 1)) all_ in
    (ground (arith, t, t', (same_text_iff answer answer).1 refl), omega (arith, l, l'))

module _ (random : ℕ → ℕ → ℕ) (brand : Brand) (pool : List Brand) (plain : Plain brand.name) where
  question-Answered :
      (round draw : ℕ) (kind : QuestionType) (prompt text answer : Text) (others : List Text)
      → Plain answer
      → Answered
          (question_of brand round kind prompt text answer (options_of random draw others answer))
  unfolding question_of
  question-Answered round draw kind prompt text answer others p =
      let (t, l) = options-keeps random draw others answer p in
      record {
        four = l;
        lettered = letter-Answered answer (options_of random draw others answer) t l;
        alone = t;
      }

  tagline-Answered : Plain brand.tagline → All Answered (tagline_question random brand pool)
  unfolding tagline_question
  tagline-Answered p = elim (Bool-cases (is_blank brand.tagline)) [
    | inl e ↦ rw (tagline_question, e) tt
    | inr e ↦
        rw (tagline_question, e)
          (question-Answered 1 0 _ _ _ brand.tagline (filled (map (λ e'. e'.tagline) pool)) p, tt)
  ]

  usp-Answered : All Answered (usp_question random brand pool)
  unfolding usp_question
  usp-Answered = elim (Bool-cases (is_blank brand.usp)) [
    | inl e ↦ rw (usp_question, e) tt
    | inr e ↦
        rw (usp_question, e)
          (question-Answered 2 2 _ _ _ brand.name (filled (names pool)) plain, tt)
  ]

  product-Answered : All Answered (product_question random brand pool)
  unfolding product_question
  product-Answered = elim (Bool-cases (brand.product_images == 0)) [
    | inl e ↦ rw (product_question, e) tt
    | inr e ↦
        rw (product_question, e)
          (question-Answered 3 4 _ _ _ brand.name (filled (names pool)) plain, tt)
  ]

  complete-Answered :
      (missing : ℕ) (questions : List QuestionDraft)
      → All Answered questions
      → All Answered (complete random brand pool missing questions)
  unfolding complete
  complete-Answered zero questions h = h
  complete-Answered (suc missing) questions h = complete-Answered missing _ (
      All-append Answered questions _ h (
        question-Answered (length questions + 1) (6 + 2 * length questions) _ _ _ brand.name
            (names pool) plain,
        tt,
      ))

  take-Answered :
      (n : ℕ) (questions : List QuestionDraft)
      → All Answered questions
      → All Answered (take n questions)
  take-Answered zero questions h = tt
  take-Answered (suc n) [] h = tt
  take-Answered (suc n) (q ∷ qs) (h, hs) = (h, take-Answered n qs hs)

  -- Whatever the random numbers and the other brands are, each question has four options, of which
  -- the one that its letter names, and no other, is the answer, where neither the brand's name nor
  -- its tagline is one of the texts that fill up the options.
  pub generate_challenge_questions-Answered :
      Plain brand.tagline → All Answered (generate_challenge_questions random brand pool)
  unfolding generate_challenge_questions
  generate_challenge_questions-Answered p =
      let made = All-append Answered (tagline_question random brand pool) _ (tagline-Answered p) (
        All-append Answered (usp_question random brand pool) (product_question random brand pool)
          usp-Answered product-Answered) in
      let questions =
        tagline_question random brand pool
        ++ (usp_question random brand pool ++ product_question random brand pool) in
      take-Answered 3 _ (complete-Answered (3 - length questions) questions made)
