-- ===== src/Streaks.antt =====
-- services/streaks of the API with the statements on a user's streak in db/queries/users. A day is
-- its number since the epoch. The notifications of a milestone are left out.
pub mod Runs
use brand_blitz.Prelude.{
  ℕ, ◌+◌, ◌-◌, ◌≤◌, ◌<◌, ◌≡◌, Bool, true, false, ◌&&◌, ◌||◌, not, List, [], ◌∷◌, length, find,
  Option, none, some, arith, max, ltb, leb, ◌==◌, if◌then◌else◌,
}

pub record StreakState : Type 0 where
  pub streak : ℕ
  pub last_play_day : Option ℕ
  pub streak_repairs_this_month : ℕ
  pub streak_repair_available : Bool

abbrev pub streak_milestones : List ℕ
streak_milestones = 3 ∷ 7 ∷ 14 ∷ 30 ∷ []

abbrev pub follows : Option ℕ → ℕ → Bool
follows none today = false
follows (some day) today = day + 1 == today

abbrev pub is_day : Option ℕ → ℕ → Bool
is_day none today = false
is_day (some day) today = day == today

abbrev next_streak : StreakState → ℕ → ℕ
next_streak s today = if follows s.last_play_day today then s.streak + 1 else 1

unfoldable pub set_user_streak : ℕ → ℕ → Bool → StreakState → StreakState
set_user_streak streak day repair s = record s {
  streak = streak;
  last_play_day = some day;
  streak_repair_available = repair;
}

unfoldable pub update_streak : ℕ → StreakState → StreakState
unfolding set_user_streak
update_streak today s =
    if is_day s.last_play_day today
    then s
    else set_user_streak (next_streak s today) today (leb 3 (next_streak s today)) s

-- `none` where no row was updated: a repair was made this month.
unfoldable pub repair_user_streak : ℕ → StreakState → Option StreakState
repair_user_streak day s =
    if ltb s.streak_repairs_this_month 1
    then some (record {
      streak = max s.streak 1;
      last_play_day = some day;
      streak_repair_available = false;
      streak_repairs_this_month = s.streak_repairs_this_month + 1;
    })
    else none

-- The first milestone above the streak, or the last of all.
unfoldable pub next_milestone : ℕ → ℕ
next_milestone streak = elim (find (λ m. ltb streak m) streak_milestones) [ none ↦ 30 | some m ↦ m ]

-- The progress to it is a quotient of the two, at most 1.
pub record StreakResponse : Type 0 where
  pub streak : ℕ
  pub last_play_day : Option ℕ
  pub repair_available : Bool
  pub next : ℕ
  pub progress_of : ℕ × ℕ
  pub milestone_just_hit : Bool

abbrev is_milestone : ℕ → Bool
is_milestone n = n == 3 || (n == 7 || (n == 14 || n == 30))

unfoldable pub format_streak : ℕ → StreakState → StreakResponse
unfolding next_milestone
format_streak today s = record {
  streak = s.streak;
  last_play_day = s.last_play_day;
  repair_available = s.streak_repair_available;
  next = next_milestone s.streak;
  progress_of = (
    if leb s.streak (max 1 (next_milestone s.streak))
        then s.streak
        else max 1 (next_milestone s.streak),
    max 1 (next_milestone s.streak),
  );
  milestone_just_hit = is_milestone s.streak && is_day s.last_play_day today;
}

unfoldable pub play_all : List ℕ → StreakState → StreakState
play_all [] s = s
play_all (day ∷ days) s = play_all days (update_streak day s)
