-- ===== src/Badges.antt =====
-- services/badges and db/queries/badges of the API: which badges a user gets for a session or in the
-- leagues, and the table in which each is kept once.
pub mod Awards
use brand_blitz.Prelude.{
  ℕ, Bool, true, false, ◌&&◌, ◌||◌, not, List, [], ◌∷◌, ◌++◌, Option, none, some, leb, ◌==◌,
  if◌then◌else◌,
}
use brand_blitz.Leagues.{
  LeagueTier, silver, Assignment, get_top_gold_users, get_newly_promoted_users,
}

pub data BadgeSlug : Type 0 where
  first_win perfect_score_badge streak_3 streak_7 wins_10 league_silver league_gold league_diamond :
      BadgeSlug

-- The place in `BADGE_DEFINITIONS`.
abbrev pub place_of : BadgeSlug → ℕ
place_of first_win = 0
place_of perfect_score_badge = 1
place_of streak_3 = 2
place_of streak_7 = 3
place_of wins_10 = 4
place_of league_silver = 5
place_of league_gold = 6
place_of league_diamond = 7

abbrev pub perfect_score : ℕ
perfect_score = 450

pub record UserBadge : Type 0 where
  pub user_id : ℕ
  pub badge_slug : BadgeSlug

abbrev pub is_badge : ℕ → BadgeSlug → UserBadge → Bool
is_badge user slug b = b.user_id == user && place_of b.badge_slug == place_of slug

unfoldable pub has_badge : ℕ → BadgeSlug → List UserBadge → Bool
has_badge user slug [] = false
has_badge user slug (b ∷ rows) = is_badge user slug b || has_badge user slug rows

-- The insertion, which does nothing where the badge is there; whether it inserted.
unfoldable pub award_badge : ℕ → BadgeSlug → List UserBadge → Bool × List UserBadge
unfolding has_badge
award_badge user slug rows =
    if has_badge user slug rows
    then (false, rows)
    else (true, record { user_id = user; badge_slug = slug } ∷ rows)

unfoldable pub grant_badges : ℕ → List BadgeSlug → List UserBadge → List BadgeSlug × List UserBadge
unfolding award_badge
grant_badges user [] rows = ([], rows)
grant_badges user (slug ∷ slugs) rows =
    let badge = award_badge user slug rows in
    let rest = grant_badges user slugs badge.1 in
    (if badge.0 then slug ∷ rest.0 else rest.0, rest.1)

pub record BadgeUser : Type 0 where
  pub challenges_played : ℕ
  pub streak : ℕ

abbrev candidate : Bool → BadgeSlug → List BadgeSlug
candidate test slug = if test then slug ∷ [] else []

unfoldable pub candidates_of : BadgeUser → ℕ → List BadgeSlug
candidates_of user total_score =
    candidate (user.challenges_played == 1) first_win
    ++ (candidate (total_score == perfect_score) perfect_score_badge
        ++ (candidate (leb 3 user.streak) streak_3
            ++ (candidate (leb 7 user.streak) streak_7
                ++ candidate (leb 10 user.challenges_played) wins_10)))

-- `found` is the user's row, if there is one.
unfoldable pub check_and_award_session_badges :
    ℕ → Option BadgeUser → ℕ → Bool → List UserBadge → List BadgeSlug × List UserBadge
unfolding candidates_of grant_badges
check_and_award_session_badges user found total_score is_practice rows =
    if is_practice then ([], rows) else elim found [
      | none ↦ ([], rows)
      | some u ↦ grant_badges user (candidates_of u total_score) rows
    ]

abbrev grant_diamonds : List ℕ → List UserBadge → List UserBadge
grant_diamonds [] rows = rows
grant_diamonds (user ∷ users) rows =
    grant_diamonds users (grant_badges user (league_diamond ∷ []) rows).1

-- The users differ, so the order in which their badges are granted does not matter.
unfoldable pub check_and_award_league_diamond_badges :
    ℕ → List Assignment → List UserBadge → List UserBadge
unfolding grant_badges get_top_gold_users
check_and_award_league_diamond_badges week assignments rows =
    grant_diamonds (get_top_gold_users week assignments) rows

abbrev badge_of : LeagueTier → BadgeSlug
badge_of silver = league_silver
badge_of _ = league_gold

abbrev grant_promotions : List (ℕ × LeagueTier) → List UserBadge → List UserBadge
grant_promotions [] rows = rows
grant_promotions ((user, league) ∷ users) rows =
    grant_promotions users (grant_badges user (badge_of league ∷ []) rows).1

unfoldable pub check_and_award_league_promotion_badges :
    ℕ → List Assignment → List UserBadge → List UserBadge
unfolding grant_badges get_newly_promoted_users
check_and_award_league_promotion_badges week assignments rows =
    grant_promotions (get_newly_promoted_users week assignments) rows
