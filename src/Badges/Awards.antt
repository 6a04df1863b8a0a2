-- ===== src/Badges/Awards.antt =====
-- services/badges of the API: a badge is kept once, and the score that the perfect one wants.
use brand_blitz.Prelude.{
  ℕ, ◌+◌, ◌≤◌, ◌≡◌, refl, Bool, false, ◌||◌, List, [], ◌∷◌, Option, some, arith, ◌==◌, inl, inr,
  Bool-cases, Option-cases,
}
use brand_blitz.Scoring.{Choice, calculate_round_score}
use brand_blitz.Scoring.Round.{calculate_round_score-linear}
use brand_blitz.Sessions.Guards.{Thresholds, pass, Flag, validate_reaction_time}
use brand_blitz.Leagues.{LeagueTier, Assignment, get_top_gold_users, get_newly_promoted_users}
use brand_blitz.Badges.{
  BadgeSlug, perfect_score_badge, place_of, UserBadge, has_badge, award_badge, grant_badges,
  BadgeUser, candidates_of, check_and_award_session_badges, check_and_award_league_diamond_badges,
  check_and_award_league_promotion_badges, grant_diamonds, grant_promotions, badge_of,
  league_diamond,
}

abbrev pub includes_slug : BadgeSlug → List BadgeSlug → Bool
includes_slug slug [] = false
includes_slug slug (s ∷ slugs) = place_of s == place_of slug || includes_slug slug slugs

-- No user has a badge twice.
abbrev pub BadgesOnce : List UserBadge → Type 0
BadgesOnce [] = Unit
BadgesOnce (b ∷ rows) = (has_badge b.user_id b.badge_slug rows ≡ false) × BadgesOnce rows

grant-BadgesOnce :
    (user : ℕ) (slugs : List BadgeSlug) (rows : List UserBadge)
    → BadgesOnce rows
    → BadgesOnce (grant_badges user slugs rows).1
unfolding grant_badges award_badge
grant-BadgesOnce user [] rows h = h
grant-BadgesOnce user (slug ∷ slugs) rows h = elim (Bool-cases (has_badge user slug rows)) [
  | inl e ↦ rw (grant_badges, award_badge, e) (grant-BadgesOnce user slugs rows h)
  | inr e ↦
      rw (grant_badges, award_badge, e)
        (grant-BadgesOnce user slugs (record { user_id = user; badge_slug = slug } ∷ rows) (e, h))
]

granted-includes :
    (user : ℕ) (slug : BadgeSlug) (slugs : List BadgeSlug) (rows : List UserBadge)
    → includes_slug slug slugs ≡ false
    → includes_slug slug (grant_badges user slugs rows).0 ≡ false
unfolding grant_badges award_badge
granted-includes user slug [] rows h = refl
granted-includes user slug (s ∷ slugs) rows h =
    ground (arith, granted-includes user slug slugs (award_badge user s rows).1)

-- A round's answer that the guard lets pass scores at most 149.
passed-score :
    (thresholds : Thresholds) (selected : Option Choice) (correct : Choice) (reaction : ℕ)
    (flags : List Flag)
    → validate_reaction_time thresholds (some reaction) ≡ pass flags
    → calculate_round_score selected correct reaction ≤ 149
unfolding validate_reaction_time
passed-score thresholds selected correct reaction flags h =
    ground (arith, calculate_round_score-linear selected correct reaction)

not_perfect :
    (user : BadgeUser) (total : ℕ)
    → total ≤ 447
    → includes_slug perfect_score_badge (candidates_of user total) ≡ false
unfolding candidates_of
not_perfect user total h = ground arith

-- The times of three answers, each of which the guard lets pass.
pub record Passed (thresholds : Thresholds) (t1 t2 t3 : ℕ) : Type 0 where
  pub first : (flags : List Flag) × (validate_reaction_time thresholds (some t1) ≡ pass flags)
  pub second : (flags : List Flag) × (validate_reaction_time thresholds (some t2) ≡ pass flags)
  pub third : (flags : List Flag) × (validate_reaction_time thresholds (some t3) ≡ pass flags)

-- Nobody gets the badge of the perfect score: whatever three answers a session has, if the guard lets
-- their reaction times pass, their scores add up to less than the 450 points that it wants.
pub check_and_award_session_badges-never_perfect :
    (thresholds : Thresholds) (user : ℕ) (found : Option BadgeUser) (is_practice : Bool)
    (rows : List UserBadge) (s1 s2 s3 : Option Choice) (c1 c2 c3 : Choice) (t1 t2 t3 : ℕ)
    → Passed thresholds t1 t2 t3
    → includes_slug perfect_score_badge
        (check_and_award_session_badges user found
          (calculate_round_score s1 c1 t1
            + calculate_round_score s2 c2 t2
            + calculate_round_score s3 c3 t3)
          is_practice
          rows).0
      ≡ false
unfolding check_and_award_session_badges
check_and_award_session_badges-never_perfect thresholds user found is_practice rows s1 s2 s3 c1 c2
      c3 t1 t2 t3 h =
    let total =
      calculate_round_score s1 c1 t1
      + calculate_round_score s2 c2 t2
      + calculate_round_score s3 c3 t3 in
    let low : total ≤ 447 = omega (
      arith,
      passed-score thresholds s1 c1 t1 h.first.0 h.first.1,
      passed-score thresholds s2 c2 t2 h.second.0 h.second.1,
      passed-score thresholds s3 c3 t3 h.third.0 h.third.1,
    ) in
    elim (Option-cases found) [
      | inl e ↦ ground (arith, e)
      | inr (u, e) ↦ ground (
        arith,
        e,
        granted-includes user perfect_score_badge (candidates_of u total) rows
            (not_perfect u total low),
      )
    ]

-- What the API awards badges for: a session that ended, and the two weekly rounds of the leagues.
pub data Occasion : Type 0 where
  session_ended : ℕ → Option BadgeUser → ℕ → Bool → Occasion
  week_ranked week_seeded : ℕ → List Assignment → Occasion

abbrev award : Occasion → List UserBadge → List UserBadge
award (session_ended user found total_score is_practice) rows =
    (check_and_award_session_badges user found total_score is_practice rows).1
award (week_ranked week assignments) rows =
    check_and_award_league_diamond_badges week assignments rows
award (week_seeded week assignments) rows =
    check_and_award_league_promotion_badges week assignments rows

abbrev pub award_all : List Occasion → List UserBadge → List UserBadge
award_all [] rows = rows
award_all (o ∷ os) rows = award_all os (award o rows)

diamonds-BadgesOnce :
    (users : List ℕ) (rows : List UserBadge)
    → BadgesOnce rows
    → BadgesOnce (grant_diamonds users rows)
diamonds-BadgesOnce [] rows h = h
diamonds-BadgesOnce (user ∷ users) rows h =
    diamonds-BadgesOnce users (grant_badges user (league_diamond ∷ []) rows).1
      (grant-BadgesOnce user (league_diamond ∷ []) rows h)

promotions-BadgesOnce :
    (users : List (ℕ × LeagueTier)) (rows : List UserBadge)
    → BadgesOnce rows
    → BadgesOnce (grant_promotions users rows)
promotions-BadgesOnce [] rows h = h
promotions-BadgesOnce ((user, league) ∷ users) rows h =
    promotions-BadgesOnce users (grant_badges user (badge_of league ∷ []) rows).1
      (grant-BadgesOnce user (badge_of league ∷ []) rows h)

award-BadgesOnce :
    (o : Occasion) (rows : List UserBadge) → BadgesOnce rows → BadgesOnce (award o rows)
unfolding check_and_award_session_badges check_and_award_league_diamond_badges
    check_and_award_league_promotion_badges
award-BadgesOnce (session_ended user found total_score practice) rows h =
    ground (arith, λ (u : BadgeUser). grant-BadgesOnce user (candidates_of u total_score) rows h)
award-BadgesOnce (week_ranked week assignments) rows h =
    diamonds-BadgesOnce (get_top_gold_users week assignments) rows h
award-BadgesOnce (week_seeded week assignments) rows h =
    promotions-BadgesOnce (get_newly_promoted_users week assignments) rows h

-- Whatever sessions end and weeks are ranked or seeded, a user has each badge at most once.
pub award_all-BadgesOnce :
    (occasions : List Occasion) (rows : List UserBadge)
    → BadgesOnce rows
    → BadgesOnce (award_all occasions rows)
award_all-BadgesOnce [] rows h = h
award_all-BadgesOnce (o ∷ os) rows h =
    award_all-BadgesOnce os (award o rows) (award-BadgesOnce o rows h)
