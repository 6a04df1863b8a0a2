-- ===== src/Scoring/Ranking.antt =====
-- services/scoring of the API: `rankWinners` and its comparator, and `deduplicateBadgeSlugs`.
pub mod Order
pub mod Slugs
use Prim.Native.String.{String}
use text.Mathlib.Text.{◌==◌ as str_eq}
use brand_blitz.Prelude.{
  ℕ, zero, suc, ◌≡◌, Bool, true, false, ◌||◌, List, [], ◌∷◌, ◌++◌, Option, none, some, ltb, ◌==◌,
  take, if◌then◌else◌,
}

-- The time is that of `new Date(endedAt).getTime()`, which is NaN for a text that is no date.
pub record SessionSummary : Type 0 where
  pub user_id : String
  pub stellar_address : String
  pub total_score : ℕ
  pub ended_at : Option ℕ

-- The sign of what a comparator returns, as `sort` reads it; NaN counts as 0.
pub data Sign : Type 0 where
  minus nought plus : Sign

abbrev pub sign_of_difference : ℕ → ℕ → Sign
sign_of_difference x y = if x == y then nought else if ltb x y then minus else plus

abbrev pub is_plus : Sign → Bool
is_plus plus = true
is_plus _ = false

-- `localeCompare` belongs to the runtime's locale data.
module _ (locale_compare : String → String → Sign) where
  by_time : Option ℕ → Option ℕ → Sign → Sign
  by_time (some x) (some y) tie = if x == y then tie else sign_of_difference x y
  by_time _ _ tie = nought

  pub compare_sessions : SessionSummary → SessionSummary → Sign
  unfolding by_time
  compare_sessions x y =
      if y.total_score == x.total_score
      then by_time x.ended_at y.ended_at (locale_compare x.user_id y.user_id)
      else sign_of_difference y.total_score x.total_score

  -- `Array.prototype.sort` is stable; so is insertion behind all that do not compare greater.
  insert_session : SessionSummary → List SessionSummary → List SessionSummary
  insert_session x [] = x ∷ []
  insert_session x (y ∷ ys) =
      let later = y ∷ insert_session x ys in
      if is_plus (compare_sessions x y) then later else x ∷ y ∷ ys

  sort_sessions : List SessionSummary → List SessionSummary
  sort_sessions [] = []
  sort_sessions (x ∷ xs) = insert_session x (sort_sessions xs)

  -- A missing `topN`, and one of 0, keep the whole ranking.
  unfoldable pub rank_winners : List SessionSummary → Option ℕ → List SessionSummary
  unfolding sort_sessions insert_session compare_sessions
  rank_winners sessions none = sort_sessions sessions
  rank_winners sessions (some zero) = sort_sessions sessions
  rank_winners sessions (some (suc n)) = take (suc n) (sort_sessions sessions)

abbrev pub has_slug : String → List String → Bool
has_slug slug [] = false
has_slug slug (s ∷ set) = str_eq s slug || has_slug slug set

-- `new Set(slugs)` keeps the first of equal slugs, in insertion order.
add_all : List String → List String → List String
add_all set [] = set
add_all set (slug ∷ slugs) = add_all (if has_slug slug set then set else set ++ (slug ∷ [])) slugs

unfoldable pub deduplicate_badge_slugs : List String → List String
unfolding add_all
deduplicate_badge_slugs slugs = add_all [] slugs
