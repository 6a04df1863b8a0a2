-- ===== src/Payouts/Pool.antt =====
-- services/payout of the API: the amounts of all payouts of a challenge against its pool.
use brand_blitz.Prelude.{
  ℕ, ◌+◌, ◌-◌, ◌*◌, ◌/◌, ◌≤◌, ◌≡◌, refl, false, List, [], ◌∷◌, map, sum, Option, none, some, arith,
  ltb, inl, inr, Bool-cases, ltb→lt, subst, sym,
}
use brand_blitz.Usdc.{calculate_payout_share_stroops}
use brand_blitz.Usdc.Share.{mul_mono, shares, shares_exhaust_pool}
use brand_blitz.Payouts.{
  Winner, LicenseTerms, Allocation, eligible, license_payment, fee_of, set_allocation, allocated,
  player_allocations, add_license, scores, payout_allocations,
}

abbrev pub paid : List Allocation → ℕ
paid allocations = sum (map (λ a. a.amount_stroops) allocations)

paid-set_allocation :
    (a : Allocation) (bs : List Allocation)
    → paid (set_allocation a bs) + allocated a.user_id bs ≡ paid bs + a.amount_stroops
unfolding set_allocation allocated
paid-set_allocation a [] = omega arith
paid-set_allocation a (b ∷ bs) = ground (arith, paid-set_allocation a bs)

paid-player_allocations :
    (total pool : ℕ) (ws : List Winner) (acc : List Allocation)
    → paid (player_allocations total pool ws acc) ≤ paid acc + sum (shares total pool (scores ws))
unfolding player_allocations
paid-player_allocations total pool [] acc = omega arith
paid-player_allocations total pool (w ∷ ws) acc =
    let amount = calculate_payout_share_stroops w.total_score total pool in
    let a : Allocation = record {
      user_id = w.user_id;
      address = w.stellar_address;
      amount_stroops = amount;
    } in
    ground (
      arith,
      paid-player_allocations total pool ws acc,
      paid-player_allocations total pool ws (set_allocation a acc),
      paid-set_allocation a acc,
    )

abbrev FeeBound : Option LicenseTerms → Type 0
FeeBound none = Unit
FeeBound (some terms) = terms.fee_bps ≤ 5000

shares-zero : (pool : ℕ) (xs : List ℕ) → sum (shares 0 pool xs) ≡ 0
unfolding calculate_payout_share_stroops
shares-zero pool [] = refl
shares-zero pool (x ∷ xs) = omega (arith, shares-zero pool xs)

zero_of : (n : ℕ) → ltb 0 n ≡ false → n ≡ 0
zero_of n h = ground arith

le_of_eq_zero : (n m : ℕ) → n ≡ 0 → n ≤ m
le_of_eq_zero n m h = omega arith

shares-le : (pool : ℕ) (xs : List ℕ) → sum (shares (sum xs) pool xs) ≤ pool
shares-le pool xs = elim (Bool-cases (ltb 0 (sum xs))) [
  | inl h ↦ (shares_exhaust_pool pool xs (ltb→lt 0 (sum xs) h)).0
  | inr h ↦
      le_of_eq_zero (sum (shares (sum xs) pool xs)) pool
        (subst (λ n. sum (shares n pool xs) ≡ 0) (sym (zero_of (sum xs) h)) (shares-zero pool xs))
]

fee-le : (pool bps : ℕ) → bps ≤ 5000 → pool * bps / 10000 ≤ pool
fee-le pool bps h = grind (arith, mul_mono pool bps 5000 h)

license_payment-le :
    (pool : ℕ) (terms : Option LicenseTerms)
    → FeeBound terms
    → fee_of (license_payment pool terms) ≤ pool
unfolding license_payment
license_payment-le pool none h = omega arith
license_payment-le pool (some terms) h = grind (arith, fee-le pool terms.fee_bps h)

add_license-le :
    (pool : ℕ) (payment : Option Allocation) (acc : List Allocation)
    → fee_of payment ≤ pool
    → paid acc ≤ pool - fee_of payment
    → paid (add_license payment acc) ≤ pool
add_license-le pool none acc h k = omega arith
add_license-le pool (some fee) acc h k = ground (
  arith,
  paid-set_allocation
      (record fee { amount_stroops = allocated fee.user_id acc + fee.amount_stroops }) acc,
)

-- Where the license's fee is at most 5000 basis points, as its column demands, the amounts of all
-- payouts, the fee included, add up to at most the pool, whatever users occur twice.
pub payout_allocations-le :
    (pool : ℕ) (terms : Option LicenseTerms) (ranked : List Winner)
    → FeeBound terms
    → paid (payout_allocations pool terms ranked) ≤ pool
unfolding payout_allocations
payout_allocations-le pool terms ranked h =
    let payment = license_payment pool terms in
    let players = eligible ranked in
    let rest = pool - fee_of payment in
    let shared = player_allocations (sum (scores players)) rest players [] in
    add_license-le pool payment shared (license_payment-le pool terms h) (
      omega (
        arith,
        paid-player_allocations (sum (scores players)) rest players [],
        shares-le rest (scores players),
      ))
