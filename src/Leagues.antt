-- ===== src/Leagues.antt =====
-- db/queries/leagues and lib/week of the API: the weekly groups of the leagues. A date is its number of
-- days since the epoch, a user's id a number in the order of the ids. The points of a week are summed by
-- the database and are given here.
pub mod Groups
pub mod Seeded
pub mod Ranks
use brand_blitz.Prelude.{
  ℕ, ◌+◌, ◌-◌, ◌/◌, ◌%◌, Bool, true, false, ◌&&◌, ◌||◌, not, List, [], ◌∷◌, ◌++◌, Option, none,
  some, length, keep, find, map, max, ltb, leb, ◌==◌, if◌then◌else◌,
}

pub data LeagueTier : Type 0 where
  bronze silver gold : LeagueTier

abbrev pub same_tier : LeagueTier → LeagueTier → Bool
same_tier bronze bronze = true
same_tier silver silver = true
same_tier gold gold = true
same_tier _ _ = false

-- The epoch was a Thursday, which is day 4 of a week from Sunday.
abbrev pub utc_day : ℕ → ℕ
utc_day date = (date + 4) % 7

unfoldable pub get_utc_week_start : ℕ → ℕ
get_utc_week_start date = date - (utc_day date + 6) % 7

unfoldable pub add_utc_days : ℕ → ℕ → ℕ
add_utc_days date days = date + days

pub record Assignment : Type 0 where
  pub user_id : ℕ
  pub league : LeagueTier
  pub group_id : ℕ
  pub week_start : ℕ
  pub weekly_points : ℕ
  pub rank_in_group : Option ℕ
  pub promoted : Bool
  pub demoted : Bool

pub record LeagueUser : Type 0 where
  pub id : ℕ
  pub league : Option LeagueTier
  pub deleted : Bool

-- A new row, with the columns' defaults.
abbrev pub assign : ℕ → LeagueTier → ℕ → ℕ → Assignment
assign user league group week = record {
  user_id = user;
  league = league;
  group_id = group;
  week_start = week;
  weekly_points = 0;
  rank_in_group = none;
  promoted = false;
  demoted = false;
}

abbrev pub is_of : ℕ → ℕ → Assignment → Bool
is_of user week a = a.user_id == user && a.week_start == week

abbrev pub in_league : ℕ → LeagueTier → Assignment → Bool
in_league week league a = a.week_start == week && same_tier a.league league

abbrev pub in_group : ℕ → LeagueTier → ℕ → Assignment → Bool
in_group week league group a = in_league week league a && a.group_id == group

abbrev pub group_size : ℕ → LeagueTier → ℕ → List Assignment → ℕ
group_size week league group rows = length (keep (in_group week league group) rows)

unfoldable pub assignment_of : ℕ → ℕ → List Assignment → Option Assignment
assignment_of user week rows = find (is_of user week) rows

-- The greatest group of the league's week, or 0.
unfoldable pub max_group : ℕ → LeagueTier → List Assignment → ℕ
max_group week league [] = 0
max_group week league (a ∷ rows) =
    let rest = max_group week league rows in
    if in_league week league a then max a.group_id rest else rest

abbrev pub group_limit : ℕ
group_limit = 30

abbrev least : ℕ → Option ℕ → Option ℕ
least group none = some group
least group (some other) = some (if ltb group other then group else other)

-- The least group of the league's week, among those of `some_rows`, with room in the table `rows`.
available_group : ℕ → LeagueTier → List Assignment → List Assignment → Option ℕ
available_group week league rows [] = none
available_group week league rows (a ∷ some_rows) =
    let rest = available_group week league rows some_rows in
    if in_league week league a && ltb (group_size week league a.group_id rows) group_limit
    then least a.group_id rest
    else rest

unfoldable pub next_group : ℕ → LeagueTier → List Assignment → ℕ
unfolding available_group max_group
next_group week league rows = elim (available_group week league rows rows) [
  | some group ↦ group
  | none ↦ max_group week league rows + 1
]

abbrev pub league_of : LeagueUser → LeagueTier
league_of u = elim u.league [ none ↦ bronze | some league ↦ league ]

abbrev pub find_user : ℕ → List LeagueUser → Option LeagueUser
find_user user users = find (λ u. u.id == user && not u.deleted) users

-- The league and group of the user, and the table; `none` where the user is not there, so that the
-- league to insert is NULL, which the table refuses.
unfoldable pub ensure_assignment_for_user_this_week :
    ℕ → ℕ → List LeagueUser → List Assignment → Option (LeagueTier × ℕ) × List Assignment
ensure_assignment_for_user_this_week user week users rows = elim (assignment_of user week rows) [
  | some a ↦ (some (a.league, a.group_id), rows)
  | none ↦ elim (find_user user users) [
    | none ↦ (none, rows)
    | some u ↦ (
      some (league_of u, next_group week (league_of u) rows),
      assign user (league_of u) (next_group week (league_of u) rows) week ∷ rows,
    )
  ]
]

-- The rows of the group that stand before `a`: more points, or as many and a lesser user.
abbrev pub beats : Assignment → Assignment → Bool
beats a b =
    ltb b.weekly_points a.weekly_points
    || (a.weekly_points == b.weekly_points && ltb a.user_id b.user_id)

abbrev pub rank_of : ℕ → List Assignment → Assignment → ℕ
rank_of week rows a = length (keep (λ b. in_group week a.league a.group_id b && beats b a) rows) + 1

abbrev pub is_promoted : LeagueTier → ℕ → Bool
is_promoted league rank = not (same_tier league gold) && leb rank 3

abbrev pub is_demoted : LeagueTier → ℕ → ℕ → Bool
is_demoted league rank size = not (same_tier league bronze) && ltb (size - 3) rank

abbrev pub flagged : ℕ → List Assignment → Assignment → Assignment
flagged week rows a =
    if a.week_start == week
    then record a {
      rank_in_group = some (rank_of week rows a);
      promoted = is_promoted a.league (rank_of week rows a);
      demoted =
          is_demoted a.league (rank_of week rows a) (group_size week a.league a.group_id rows);
    }
    else a

-- Users of one week differ, so `ROW_NUMBER` is one more than the number of rows before a row.
unfoldable pub rank_and_flag_week : ℕ → List Assignment → List Assignment
rank_and_flag_week week rows = map (flagged week rows) rows

abbrev pub within : ℕ → Option ℕ → Bool
within n rank = elim rank [ none ↦ false | some r ↦ leb r n ]

unfoldable pub get_top_gold_users : ℕ → List Assignment → List ℕ
get_top_gold_users week rows =
    map (λ a. a.user_id) (keep (λ a. in_league week gold a && within 3 a.rank_in_group) rows)

abbrev pub moved_up : LeagueTier → LeagueTier → Bool
moved_up bronze silver = true
moved_up silver gold = true
moved_up _ _ = false

unfoldable pub get_newly_promoted_users : ℕ → List Assignment → List (ℕ × LeagueTier)
get_newly_promoted_users week rows =
    map (λ a. (a.user_id, a.league))
      (keep
        (λ a. a.week_start == week && elim (assignment_of a.user_id (week - 7) rows) [
          | none ↦ false
          | some prev ↦ moved_up prev.league a.league
        ])
        rows)

-- The league that a user goes to after a week.
unfoldable pub next_league : Option Assignment → LeagueTier
next_league none = bronze
next_league (some prev) =
    if prev.promoted && same_tier prev.league bronze
    then silver
    else if prev.promoted && same_tier prev.league silver
    then gold
    else if prev.demoted && same_tier prev.league gold
    then silver
    else if prev.demoted && same_tier prev.league silver
    then bronze
    else prev.league

abbrev pub target_league : ℕ → List Assignment → LeagueUser → LeagueTier
target_league week rows u = next_league (assignment_of u.id (week - 7) rows)

-- How many users of each league were numbered before.
pub record Numbered : Type 0 where
  pub bronzes : ℕ
  pub silvers : ℕ
  pub golds : ℕ

abbrev pub number_of : LeagueTier → Numbered → ℕ
number_of bronze n = n.bronzes
number_of silver n = n.silvers
number_of gold n = n.golds

abbrev pub numbered : LeagueTier → Numbered → Numbered
numbered bronze n = record n { bronzes = n.bronzes + 1 }
numbered silver n = record n { silvers = n.silvers + 1 }
numbered gold n = record n { golds = n.golds + 1 }

-- `CEIL(ROW_NUMBER() / 30)`.
abbrev pub group_of_number : ℕ → ℕ
group_of_number n = (n + 29) / 30

-- The users in the order of their ids; `rows` is the table before the statement.
unfoldable pub seed_rows : ℕ → List Assignment → Numbered → List LeagueUser → List Assignment
seed_rows week rows n [] = []
seed_rows week rows n (u ∷ us) =
    let league = target_league week rows u in
    let skipped = seed_rows week rows n us in
    let rest = seed_rows week rows (numbered league n) us in
    if u.deleted then skipped else elim (assignment_of u.id week rows) [
      | some a ↦ rest
      | none ↦ assign u.id league (group_of_number (number_of league n + 1)) week ∷ rest
    ]

-- The update of the users. All parts of the statement see the table as it was before it, so a user
-- counts as assigned only where the row is not one that the statement inserts.
abbrev pub seeded_user : ℕ → List Assignment → LeagueUser → LeagueUser
seeded_user week rows u = if u.deleted then u else elim (assignment_of u.id week rows) [
  | none ↦ u
  | some a ↦ record u { league = some (target_league week rows u) }
]

unfoldable pub seed_week_assignments :
    ℕ → List LeagueUser → List Assignment → List LeagueUser × List Assignment
unfolding seed_rows
seed_week_assignments week users rows = (
  map (seeded_user week rows) users,
  seed_rows week rows (record { bronzes = 0; silvers = 0; golds = 0 }) users ++ rows,
)

-- The job `start-week`, which is put off where sessions are running; `finalize-week` calls a function
-- of the database.
unfoldable pub start_week :
    ℕ → ℕ → List LeagueUser → List Assignment → Bool × (List LeagueUser × List Assignment)
unfolding get_utc_week_start
start_week today active_sessions users rows =
    if active_sessions == 0
    then (true, seed_week_assignments (get_utc_week_start today) users rows)
    else (false, (users, rows))
