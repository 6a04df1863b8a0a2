-- ===== src/Tests/Leagues.antt =====
-- The weekly groups, and the pages of the challenges.
use mathlib.Core.List.{Perm}
use brand_blitz.Prelude.{
  ◌↔◌, ◌≢◌, ◌+◌, inl, ℕ, ◌<◌, ◌≤◌, ◌≡◌, refl, Bool, true, false, List, [], ◌∷◌, Option, none, some,
  arith, get_elem?,
}
use brand_blitz.Leagues.{
  bronze, silver, gold, Assignment, LeagueUser, group_size, rank_of, flagged, rank_and_flag_week,
  seed_week_assignments,
}
use brand_blitz.Leagues.Groups.{Grouped, ensure_all, ensure_all-Grouped}
use brand_blitz.Leagues.Seeded.{filled, headed_for, seed_week_assignments-size}
use brand_blitz.Leagues.Ranks.{rank_and_flag_week-ordered}
use brand_blitz.Pages.{ListedChallenge, ending_soon, comes_before, shown_rows, active_pages}
use brand_blitz.Pages.Ordered.{Sorted}
use brand_blitz.Pages.Sorts.{active_pages_complete}

abbrev ann : LeagueUser
ann = record { id = 1; league = none; deleted = false }

abbrev bob : LeagueUser
bob = record { id = 2; league = some bronze; deleted = false }

abbrev users : List LeagueUser
users = ann ∷ bob ∷ []

ensure_all-Grouped_example : Grouped (ensure_all ((2, 7) ∷ (1, 7) ∷ (2, 7) ∷ []) users [])
ensure_all-Grouped_example =
    ensure_all-Grouped ((2, 7) ∷ (1, 7) ∷ (2, 7) ∷ []) users []
      (record { limited = λ w l g. ground arith; single = λ u w. ground arith })

-- The last week, in which bob was promoted.
abbrev row_of : ℕ → ℕ → Bool → Assignment
row_of user points promoted = record {
  user_id = user;
  league = bronze;
  group_id = 1;
  week_start = 7;
  weekly_points = points;
  rank_in_group = none;
  promoted = promoted;
  demoted = false;
}

abbrev last_week : List Assignment
last_week = row_of 1 10 false ∷ row_of 2 30 true ∷ []

seed_week_assignments-size_example :
    group_size 14 silver 1 (seed_week_assignments 14 users last_week).1
    ≡ filled 1 (headed_for 14 last_week silver users)
seed_week_assignments-size_example =
    seed_week_assignments-size 14 users last_week (refl, (refl, tt)) silver 1 (ground arith)

rank_and_flag_week-ordered_example :
    (get_elem? (rank_and_flag_week 7 last_week) 1 ≡ some (flagged 7 last_week (row_of 2 30 true)))
    × (get_elem? (rank_and_flag_week 7 last_week) 0
        ≡ some (flagged 7 last_week (row_of 1 10 false)))
    × ((flagged 7 last_week (row_of 2 30 true)).rank_in_group
        ≡ some (rank_of 7 last_week (row_of 2 30 true)))
    × ((flagged 7 last_week (row_of 1 10 false)).rank_in_group
        ≡ some (rank_of 7 last_week (row_of 1 10 false)))
    × (1 ≤ rank_of 7 last_week (row_of 2 30 true))
    × (rank_of 7 last_week (row_of 2 30 true) < rank_of 7 last_week (row_of 1 10 false))
    × (rank_of 7 last_week (row_of 1 10 false) ≤ group_size 7 bronze 1 last_week)
    × ((flagged 7 last_week (row_of 2 30 true)).promoted ≡ true
        ↔ (bronze ≢ gold) × (rank_of 7 last_week (row_of 2 30 true) ≤ 3))
    × ((flagged 7 last_week (row_of 2 30 true)).demoted ≡ true
        ↔ (bronze ≢ bronze)
          × (group_size 7 bronze 1 last_week < rank_of 7 last_week (row_of 2 30 true) + 3))
    × ((flagged 7 last_week (row_of 1 10 false)).promoted ≡ true
        → (flagged 7 last_week (row_of 2 30 true)).promoted ≡ true)
    × ((flagged 7 last_week (row_of 2 30 true)).demoted ≡ true
        → (flagged 7 last_week (row_of 1 10 false)).demoted ≡ true)
rank_and_flag_week-ordered_example =
    rank_and_flag_week-ordered 7 1 0 last_week (row_of 2 30 true) (row_of 1 10 false) refl refl
      (record {
        first_week = refl;
        second_week = refl;
        same_league = refl;
        same_group = refl;
        ahead = inl (omega arith);
      })

abbrev listed_as : ℕ → ℕ → Option ℕ → ListedChallenge
listed_as id pool ends_at = record {
  id = id;
  pool_amount_stroops = pool;
  created_at = 1000;
  ends_at = ends_at;
  shown = true;
}

abbrev listed : List ListedChallenge
listed = listed_as 1 50 (some 2000) ∷ listed_as 2 70 (some 1000) ∷ listed_as 3 70 (some 5000) ∷ []

active_pages_complete_example :
    Perm (active_pages ending_soon 4 2 none listed) (shown_rows listed)
    × Sorted (comes_before ending_soon) (active_pages ending_soon 4 2 none listed)
active_pages_complete_example =
    active_pages_complete ending_soon 4 2 listed (ground arith) (ground arith)
      (refl, (refl, (refl, tt)))
      ((2000, refl, refl), ((1000, refl, refl), ((5000, refl, refl), tt)))
