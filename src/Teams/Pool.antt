-- ===== src/Teams/Pool.antt =====
-- The payout of a pool to teams never exceeds the pool.
use brand_blitz.Prelude.{ℕ, ◌+◌, ◌≤◌, ◌≡◌, refl, List, [], ◌∷◌, ◌++◌, arith, map, sum}
use brand_blitz.Texts.{Text}
use brand_blitz.Usdc.Share.{shares, shares_exhaust_pool}
use brand_blitz.Teams.{
  Member, Allocation, TeamEntry, TeamAllocation, with_address, team_share, total_points_of,
  eligible, split_team_payout, team_allocations, all_team_allocations,
  calculate_team_payout_allocations,
}
use brand_blitz.Teams.Split.{paid, due, split_team_payout-paid}

abbrev pub team_paid : List TeamAllocation → ℕ
team_paid xs = sum (map (λ a. a.allocation.amount_stroops) xs)

team_paid-append :
    (xs ys : List TeamAllocation) → team_paid (xs ++ ys) ≡ team_paid xs + team_paid ys
team_paid-append [] ys = omega arith
team_paid-append (x ∷ xs) ys = omega (arith, team_paid-append xs ys)

team_paid-tag :
    (team : ℕ) (xs : List Allocation)
    → team_paid (map (λ a. record { allocation = a; team_id = team }) xs) ≡ paid xs
team_paid-tag team [] = refl
team_paid-tag team (x ∷ xs) = omega (arith, team_paid-tag team xs)

due-le : (total : ℕ) (ms : List Member) → due total ms ≤ total
due-le total ms = ground arith

split-le : (total : ℕ) (ms : List Member) → paid (split_team_payout total ms) ≤ total
split-le total ms = omega (arith, split_team_payout-paid total ms, due-le total (eligible ms))

team_allocations-le :
    (addresses : List (ℕ × Text)) (total pool : ℕ) (team : TeamEntry)
    → team_paid (team_allocations addresses total pool team) ≤ team_share total pool team
unfolding team_allocations
team_allocations-le addresses total pool team =
    let members = map (with_address addresses) team.members in
    ground (
      arith,
      team_paid-tag team.team_id (split_team_payout (team_share total pool team) members),
      split-le (team_share total pool team) members,
    )

all_team_allocations-le :
    (addresses : List (ℕ × Text)) (total pool : ℕ) (teams : List TeamEntry)
    → team_paid (all_team_allocations addresses total pool teams)
      ≤ sum (shares total pool (map (λ t. t.total_score) teams))
unfolding all_team_allocations
all_team_allocations-le addresses total pool [] = omega arith
all_team_allocations-le addresses total pool (team ∷ teams) = omega (
  arith,
  team_paid-append (team_allocations addresses total pool team)
      (all_team_allocations addresses total pool teams),
  team_allocations-le addresses total pool team,
  all_team_allocations-le addresses total pool teams,
)

-- For every team leaderboard, address table and pool, the amounts allocated to all members of all
-- teams add up to at most the pool.
pub calculate_team_payout_allocations-le :
    (entries : List TeamEntry) (addresses : List (ℕ × Text)) (pool : ℕ)
    → team_paid (calculate_team_payout_allocations entries addresses pool) ≤ pool
unfolding calculate_team_payout_allocations
calculate_team_payout_allocations-le entries addresses pool = ground (
  arith,
  all_team_allocations-le addresses (total_points_of entries) pool entries,
  shares_exhaust_pool pool (map (λ t. t.total_score) entries),
)
