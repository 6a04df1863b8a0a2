-- ===== src/Scoring/Round.antt =====
-- The score of a round against the linear formula that the source documents, and its bounds.
use brand_blitz.Prelude.{
  ℕ, ◌+◌, ◌-◌, ◌/◌, ◌≤◌, ◌<◌, ◌≡◌, refl, ◌↔◌, inl, inr, Bool, true, Option, arith, leb, ◌==◌,
  if◌then◌else◌, Bool-cases, ==_iff,
}
use brand_blitz.Numbers.{holds_below, holds_below-true}
use brand_blitz.Scoring.{
  Choice, speed_bonus, calculate_round_score, selects, max_round_score, natural, valid,
  validate_round_score,
}

-- 50 points over 15 s is a point for every 300 ms; binary rounding loses one at 8700 ms.
abbrev pub linear_bonus : ℕ → ℕ
linear_bonus time_left = if time_left == 8700 then 28 else time_left / 300

abbrev agrees_from : ℕ → ℕ → Bool
agrees_from start t = speed_bonus (start + t) == linear_bonus (start + t)

bonus_table_first : holds_below (agrees_from 0) 5001 ≡ true
unfolding holds_below speed_bonus
bonus_table_first = refl

bonus_table_second : holds_below (agrees_from 5001) 5000 ≡ true
unfolding holds_below speed_bonus
bonus_table_second = refl

bonus_table_third : holds_below (agrees_from 10001) 5000 ≡ true
unfolding holds_below speed_bonus
bonus_table_third = refl

agrees_sound :
    (start count t : ℕ)
    → holds_below (agrees_from start) count ≡ true
    → start ≤ t
    → t < start + count
    → speed_bonus t ≡ linear_bonus t
agrees_sound start count t h lo hi =
    let at : start + (t - start) ≡ t = omega arith in
    rw at at (
      (==_iff (speed_bonus (start + (t - start))) (linear_bonus (start + (t - start)))).0
        (holds_below-true (agrees_from start) count (t - start) (omega arith) h))

-- For every time left in a round, the computed bonus is the linear one.
pub speed_bonus-eq : (t : ℕ) → t ≤ 15000 → speed_bonus t ≡ linear_bonus t
speed_bonus-eq t h = elim (Bool-cases (leb t 5000)) [
  | inl low ↦ agrees_sound 0 5001 t bonus_table_first (omega arith) (ground arith)
  | inr high ↦ elim (Bool-cases (leb t 10000)) [
    | inl mid ↦ agrees_sound 5001 5000 t bonus_table_second (ground arith) (ground arith)
    | inr top ↦ agrees_sound 10001 5000 t bonus_table_third (ground arith) (omega arith)
  ]
]

-- For every selection and reaction time, a wrong or missing selection scores 0, and the right one
-- scores 100 plus a point for every full 300 ms left of 15 s; but at a reaction time of 6300 ms,
-- where 29 points are due, floating-point rounding gives 28.
pub calculate_round_score-linear :
    (selected : Option Choice) (correct : Choice) (reaction : ℕ)
    → calculate_round_score selected correct reaction ≡ (
        if selects selected correct
        then 100 + (if reaction == 6300 then 28 else (15000 - reaction) / 300)
        else 0)
unfolding calculate_round_score
calculate_round_score-linear selected correct reaction =
    ground (arith, speed_bonus-eq (15000 - reaction))

-- A faster answer never scores less.
pub calculate_round_score_mono :
    (selected : Option Choice) (correct : Choice) (fast slow : ℕ)
    → fast ≤ slow
    → calculate_round_score selected correct slow ≤ calculate_round_score selected correct fast
calculate_round_score_mono selected correct fast slow h = ground (
  arith,
  calculate_round_score-linear selected correct fast,
  calculate_round_score-linear selected correct slow,
)

-- The score of a round is at most 150, and is positive exactly when the selection is right.
pub calculate_round_score_bounds :
    (selected : Option Choice) (correct : Choice) (reaction : ℕ)
    → (calculate_round_score selected correct reaction ≤ max_round_score)
      × ((0 < calculate_round_score selected correct reaction) ↔ (selects selected correct ≡ true))
calculate_round_score_bounds selected correct reaction =
    ground (arith, calculate_round_score-linear selected correct reaction)

-- Every computed round score passes the validation that the answer route applies to it.
pub validate_round_score-calculate :
    (selected : Option Choice) (correct : Choice) (reaction : ℕ)
    → validate_round_score (natural (calculate_round_score selected correct reaction)) ≡ valid
unfolding validate_round_score
validate_round_score-calculate selected correct reaction =
    ground (arith, calculate_round_score_bounds selected correct reaction)
