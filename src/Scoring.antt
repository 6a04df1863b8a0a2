-- ===== src/Scoring.antt =====
-- services/scoring of the API: the score of a round, its validation, badge slugs and the ranking.
pub mod Round
pub mod Ranking
use brand_blitz.Prelude.{
  ℕ, ◌+◌, ◌-◌, ◌*◌, ◌≡◌, Bool, true, false, ◌||◌, Option, none, some, ltb, if◌then◌else◌,
}
use brand_blitz.Numbers.{of_ratio, times, floor}

abbrev pub base_points : ℕ
base_points = 100

abbrev pub max_speed_bonus : ℕ
max_speed_bonus = 50

abbrev pub round_duration_ms : ℕ
round_duration_ms = 15000

abbrev pub max_round_score : ℕ
max_round_score = base_points + max_speed_bonus

abbrev pub max_total_score : ℕ
max_total_score = max_round_score * 3

-- The labels of the options.
pub data Choice : Type 0 where
  a b c d : Choice

abbrev pub same_choice : Choice → Choice → Bool
same_choice a a = true
same_choice b b = true
same_choice c c = true
same_choice d d = true
same_choice _ _ = false

-- `selectedOption === correctOption`, where no selection is null.
abbrev pub selects : Option Choice → Choice → Bool
selects none correct = false
selects (some selected) correct = same_choice selected correct

unfoldable pub speed_bonus : ℕ → ℕ
unfolding of_ratio times floor
speed_bonus time_left = floor (times (of_ratio time_left round_duration_ms) max_speed_bonus)

unfoldable pub calculate_round_score : Option Choice → Choice → ℕ → ℕ
calculate_round_score selected_option correct_option reaction_time_ms =
    if selects selected_option correct_option
    then base_points + speed_bonus (round_duration_ms - reaction_time_ms)
    else 0

unfoldable pub validate_answer : Choice → Option Choice → Bool
validate_answer correct_option selected_option = selects selected_option correct_option

-- A JavaScript number that is integral where it is finite.
pub data Number : Type 0 where
  not_finite : Number
  negative : ℕ → Number
  natural : ℕ → Number

pub data ScoreCheck : Type 0 where
  valid : ScoreCheck
  round_score_out_of_range total_score_out_of_range : Number → ScoreCheck

unfoldable pub validate_round_score : Number → ScoreCheck
validate_round_score not_finite = round_score_out_of_range not_finite
validate_round_score (negative n) = round_score_out_of_range (negative n)
validate_round_score (natural n) =
    if ltb max_round_score n then round_score_out_of_range (natural n) else valid

unfoldable pub validate_total_score : Number → ScoreCheck
validate_total_score not_finite = total_score_out_of_range not_finite
validate_total_score (negative n) = total_score_out_of_range (negative n)
validate_total_score (natural n) =
    if ltb max_total_score n then total_score_out_of_range (natural n) else valid
