-- ===== src/Tests/Badges.antt =====
-- Badges.
use brand_blitz.Prelude.{◌+◌, ◌≡◌, refl, false, [], ◌∷◌, some}
use brand_blitz.Scoring.{a, b, calculate_round_score}
use brand_blitz.Sessions.Guards.{Thresholds, validate_reaction_time, reaction_time_below_minimum}
use brand_blitz.Badges.{perfect_score_badge, BadgeUser, check_and_award_session_badges}
use brand_blitz.Badges.Awards.{includes_slug, check_and_award_session_badges-never_perfect}

abbrev thresholds : Thresholds
thresholds = record { min_human_reaction_ms = 150; max_human_reaction_ms = 30000 }

abbrev newcomer : BadgeUser
newcomer = record { challenges_played = 1; streak = 3 }

check_and_award_session_badges-never_perfect_example :
    includes_slug perfect_score_badge
      (check_and_award_session_badges 1
        (some newcomer)
        (calculate_round_score (some a) a 80
          + calculate_round_score (some b) b 200
          + calculate_round_score (some a) a 90)
        false
        []).0
    ≡ false
unfolding validate_reaction_time
check_and_award_session_badges-never_perfect_example =
    check_and_award_session_badges-never_perfect thresholds 1 (some newcomer) false [] (some a)
      (some b) (some a) a b a 80 200 90
      (record {
        first = (reaction_time_below_minimum ∷ [], refl);
        second = ([], refl);
        third = (reaction_time_below_minimum ∷ [], refl);
      })
