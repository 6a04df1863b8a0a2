-- ===== src/Teams.antt =====
-- db/queries/challenge-teams of the API, `splitTeamPayout`, and `calculateTeamPayoutAllocations` of
-- services/payout, which splits a pool among teams and each team's part among its members. Ids are
-- numbers, since they are only compared.
pub mod Split
pub mod Pool
pub mod Membership
use brand_blitz.Prelude.{
  ℕ, ◌+◌, ◌-◌, ◌/◌, ◌≡◌, Bool, true, false, ◌&&◌, List, [], ◌∷◌, ◌++◌, Option, none, some, length,
  keep, map, sum, ltb, ◌==◌, if◌then◌else◌,
}
use brand_blitz.Texts.{Text, has_content}
use brand_blitz.Usdc.{calculate_payout_share_stroops}

pub record Member : Type 0 where
  pub user_id : ℕ
  pub address : Text
  pub score : Option ℕ

pub record Allocation : Type 0 where
  pub user_id : ℕ
  pub address : Text
  pub amount_stroops : ℕ

abbrev pub score_of : Member → ℕ
score_of m = elim m.score [ none ↦ 0 | some s ↦ s ]

abbrev pub points_of : List Member → ℕ
points_of ms = sum (map score_of ms)

abbrev allocate : Member → ℕ → Allocation
allocate m amount = record { user_id = m.user_id; address = m.address; amount_stroops = amount }

abbrev pub is_paid : Allocation → Bool
is_paid a = ltb 0 a.amount_stroops

-- The loop of the proportional split; the last member takes what is left.
proportional : ℕ → ℕ → ℕ → List Member → List Allocation
proportional total points allocated [] = []
proportional total points allocated (m ∷ []) =
    if ltb 0 (total - allocated) then allocate m (total - allocated) ∷ [] else []
proportional total points allocated (m ∷ m' ∷ ms) =
    let share = calculate_payout_share_stroops (score_of m) points total in
    allocate m share ∷ proportional total points (allocated + share) (m' ∷ ms)

-- The loop of the equal split.
equal : ℕ → ℕ → ℕ → List Member → List Allocation
equal total per_member allocated [] = []
equal total per_member allocated (m ∷ []) = allocate m (total - allocated) ∷ []
equal total per_member allocated (m ∷ m' ∷ ms) =
    allocate m per_member ∷ equal total per_member (allocated + per_member) (m' ∷ ms)

abbrev pub eligible : List Member → List Member
eligible members = keep (λ m. has_content m.address) members

split_eligible : ℕ → List Member → List Allocation
unfolding proportional equal
split_eligible total ms =
    if ltb 0 (points_of ms)
    then keep is_paid (proportional total (points_of ms) 0 ms)
    else if total / length ms == 0
    then []
    else keep is_paid (equal total (total / length ms) 0 ms)

unfoldable pub split_team_payout : ℕ → List Member → List Allocation
unfolding split_eligible
split_team_payout team_total_stroops members =
    if length (eligible members) == 0
    then []
    else if team_total_stroops == 0
    then []
    else split_eligible team_total_stroops (eligible members)

-- A row of the team leaderboard, and a member of it with the score that the query computed.
pub record TeamEntry : Type 0 where
  pub team_id : ℕ
  pub total_score : ℕ
  pub members : List (ℕ × ℕ)

pub record TeamAllocation : Type 0 where
  pub allocation : Allocation
  pub team_id : ℕ

-- `addressMap.get(m.userId) ?? ""`.
abbrev address_for : List (ℕ × Text) → ℕ → Text
address_for [] user = []
address_for ((u, address) ∷ rest) user =
    let later = address_for rest user in if u == user then address else later

abbrev with_address : List (ℕ × Text) → ℕ × ℕ → Member
with_address addresses (user, score) = record {
  user_id = user;
  address = address_for addresses user;
  score = some score;
}

abbrev pub total_points_of : List TeamEntry → ℕ
total_points_of entries = sum (map (λ t. t.total_score) entries)

abbrev team_share : ℕ → ℕ → TeamEntry → ℕ
team_share total pool team = calculate_payout_share_stroops team.total_score total pool

team_allocations : List (ℕ × Text) → ℕ → ℕ → TeamEntry → List TeamAllocation
team_allocations addresses total pool team =
    if team.total_score == 0
    then []
    else if team_share total pool team == 0
    then []
    else map (λ a. record { allocation = a; team_id = team.team_id })
        (split_team_payout (team_share total pool team) (map (with_address addresses) team.members))

all_team_allocations : List (ℕ × Text) → ℕ → ℕ → List TeamEntry → List TeamAllocation
unfolding team_allocations
all_team_allocations addresses total pool [] = []
all_team_allocations addresses total pool (team ∷ teams) =
    team_allocations addresses total pool team ++ all_team_allocations addresses total pool teams

unfoldable pub calculate_team_payout_allocations :
    List TeamEntry → List (ℕ × Text) → ℕ → List TeamAllocation
unfolding all_team_allocations
calculate_team_payout_allocations entries addresses player_pool_stroops =
    if player_pool_stroops == 0
    then []
    else if total_points_of entries == 0
    then []
    else all_team_allocations addresses (total_points_of entries) player_pool_stroops entries
