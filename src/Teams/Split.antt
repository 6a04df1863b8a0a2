-- ===== src/Teams/Split.antt =====
-- The split of a team's total among its members loses nothing to rounding.
use brand_blitz.Prelude.{
  ℕ, ◌+◌, ◌*◌, ◌/◌, ◌≤◌, ◌<◌, ◌≡◌, refl, inl, inr, List, [], ◌∷◌, arith, length, keep, map, sum,
  ltb, ◌==◌, if◌then◌else◌, Bool-cases,
}
use brand_blitz.Usdc.{calculate_payout_share_stroops}
use brand_blitz.Usdc.Share.{share_floor}
use brand_blitz.Teams.{
  Member, Allocation, score_of, points_of, is_paid, proportional, equal, eligible, split_eligible,
  split_team_payout,
}

abbrev pub paid : List Allocation → ℕ
paid xs = sum (map (λ a. a.amount_stroops) xs)

-- Dropping the allocations of nothing keeps the sum.
paid-keep : (xs : List Allocation) → paid (keep is_paid xs) ≡ paid xs
paid-keep [] = refl
paid-keep (x ∷ xs) = ground (arith, paid-keep xs)

mul_le_cancel : (t a b : ℕ) → 0 < t → t * a ≤ b * t → a ≤ b
mul_le_cancel t a b h k = grind arith

mul_mono : (p s t : ℕ) → s ≤ t → p * s ≤ p * t
mul_mono p s t h = grind arith

-- While the loop runs, what is allocated is at most the part that the scores met so far are due.
proportional-paid :
    (total points done allocated : ℕ) (m : Member) (ms : List Member)
    → 0 < points
    → done + points_of (m ∷ ms) ≡ points
    → points * allocated ≤ total * done
    → allocated + paid (proportional total points allocated (m ∷ ms)) ≡ total
unfolding proportional
proportional-paid total points done allocated m [] pos whole inv =
    let fits : allocated ≤ total =
      mul_le_cancel points allocated total pos
        (omega (arith, inv, mul_mono total done points (omega arith))) in
    ground arith
proportional-paid total points done allocated m (m' ∷ ms) pos whole inv =
    let share = calculate_payout_share_stroops (score_of m) points total in
    let ih =
      proportional-paid total points (done + score_of m) (allocated + share) m' ms pos (omega arith)
        (omega (arith, share_floor (score_of m) points total)) in
    omega (arith, ih)

equal-paid :
    (total per allocated : ℕ) (m : Member) (ms : List Member)
    → allocated + per * length (m ∷ ms) ≤ total
    → allocated + paid (equal total per allocated (m ∷ ms)) ≡ total
unfolding equal
equal-paid total per allocated m [] h = omega arith
equal-paid total per allocated m (m' ∷ ms) h =
    omega (arith, equal-paid total per (allocated + per) m' ms (omega arith))

div_mul_le : (a b : ℕ) → a / b * b ≤ a
div_mul_le a b = omega arith

div_zero : (a b : ℕ) → 0 < b → a / b ≡ 0 → a < b
div_zero a b h e = grind arith

div_pos : (a b : ℕ) → 0 < b → 0 < a / b → b ≤ a
div_pos a b h e = grind arith

-- What is due: the whole total, but nothing where nobody can be paid.
abbrev pub due : ℕ → List Member → ℕ
due total ms =
    if length ms == 0
    then 0
    else if ltb 0 (points_of ms)
    then total
    else if ltb total (length ms)
    then 0
    else total

split_eligible-paid :
    (total : ℕ) (m : Member) (ms : List Member)
    → paid (split_eligible total (m ∷ ms)) ≡ due total (m ∷ ms)
unfolding split_eligible
split_eligible-paid total m ms = elim (Bool-cases (ltb 0 (points_of (m ∷ ms)))) [
  | inl scored ↦ rw scored (
      ground (
        arith,
        paid-keep (proportional total (points_of (m ∷ ms)) 0 (m ∷ ms)),
        proportional-paid total (points_of (m ∷ ms)) 0 0 m ms,
      ))
  | inr unscored ↦ elim (Bool-cases (total / length (m ∷ ms) == 0)) [
    | inl little ↦ rw (unscored, little) (ground (arith, div_zero total (length (m ∷ ms))))
    | inr enough ↦
        rw (unscored, enough)
          (ground (
            arith,
            paid-keep (equal total (total / length (m ∷ ms)) 0 (m ∷ ms)),
            equal-paid total (total / length (m ∷ ms)) 0 m ms,
            div_mul_le total (length (m ∷ ms)),
            div_pos total (length (m ∷ ms)),
          ))
  ]
]

split-paid_of :
    (total : ℕ) (ms : List Member)
    → paid (if length ms == 0 then [] else if total == 0 then [] else split_eligible total ms)
      ≡ due total ms
split-paid_of total [] = refl
split-paid_of total (m ∷ ms) = ground (arith, split_eligible-paid total m ms)

-- For every total and every list of members, the amounts of the split add up to the whole total,
-- without a stroop lost to rounding; but nothing is paid when no member has an address, or when no
-- eligible member has scored and the total is smaller than the number of eligible members.
pub split_team_payout-paid :
    (total : ℕ) (members : List Member)
    → paid (split_team_payout total members) ≡ due total (eligible members)
unfolding split_team_payout
split_team_payout-paid total members = split-paid_of total (eligible members)
