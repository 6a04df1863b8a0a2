-- ===== src/Usdc/Share.antt =====
-- The shares of a pool: they never exceed it, and what rounding leaves is less than one stroop for
-- each winner.
use brand_blitz.Prelude.{ℕ, zero, suc, ◌+◌, ◌*◌, ◌≤◌, ◌<◌, List, [], ◌∷◌, map, arith, length, sum}
use brand_blitz.Usdc.{calculate_payout_share_stroops}

abbrev pub shares : ℕ → ℕ → List ℕ → List ℕ
shares total pool scores = map (λ s. calculate_payout_share_stroops s total pool) scores

pub share_floor :
    (s total pool : ℕ) → total * calculate_payout_share_stroops s total pool ≤ pool * s
unfolding calculate_payout_share_stroops
share_floor s total pool = ground arith

pub share_ceiling :
    (s total pool : ℕ)
    → 0 < total
    → pool * s < total * calculate_payout_share_stroops s total pool + total
unfolding calculate_payout_share_stroops
share_ceiling s total pool h = ground arith

shares_floor :
    (total pool : ℕ) (scores : List ℕ) → total * sum (shares total pool scores) ≤ pool * sum scores
shares_floor total pool [] = omega arith
shares_floor total pool (s ∷ scores) =
    omega (arith, share_floor s total pool, shares_floor total pool scores)

shares_ceiling :
    (total pool : ℕ) (scores : List ℕ)
    → 0 < total
    → pool * sum scores + length scores
      ≤ total * sum (shares total pool scores) + total * length scores
shares_ceiling total pool [] h = omega arith
shares_ceiling total pool (s ∷ scores) h =
    omega (arith, share_ceiling s total pool h, shares_ceiling total pool scores h)

le_of_mul : (t a b : ℕ) → 0 < t → t * a ≤ b * t → a ≤ b
le_of_mul t a b h k = grind arith

lt_of_mul : (t a b : ℕ) → t * a < t * b → a < b
lt_of_mul t a b k = grind arith

pub mul_mono : (p s t : ℕ) → s ≤ t → p * s ≤ p * t
mul_mono p s t h = grind arith

-- One share is at most the pool when the score is at most the total.
pub share-le-pool :
    (s total pool : ℕ) → s ≤ total → calculate_payout_share_stroops s total pool ≤ pool
unfolding calculate_payout_share_stroops
share-le-pool s zero pool h = omega arith
share-le-pool s (suc t) pool h =
    le_of_mul (suc t) (calculate_payout_share_stroops s (suc t) pool) pool (omega arith)
      (omega (arith, share_floor s (suc t) pool, mul_mono pool s (suc t) h))

-- When the total is the sum of the scores and is positive, the shares add up to at most the pool,
-- and fall short of it by less than one stroop for each score.
pub shares_exhaust_pool :
    (pool : ℕ) (scores : List ℕ)
    → 0 < sum scores
    → (sum (shares (sum scores) pool scores) ≤ pool)
      × (pool < sum (shares (sum scores) pool scores) + length scores)
shares_exhaust_pool pool scores h = (
  le_of_mul (sum scores) (sum (shares (sum scores) pool scores)) pool h
      (shares_floor (sum scores) pool scores),
  short,
)
  where
    nonempty : (xs : List ℕ) → 0 < sum xs → 0 < length xs
    nonempty [] k = omega arith
    nonempty (x ∷ xs) k = omega arith

    short : pool < sum (shares (sum scores) pool scores) + length scores
    short =
        lt_of_mul (sum scores) pool (sum (shares (sum scores) pool scores) + length scores)
          (omega (arith, shares_ceiling (sum scores) pool scores h, nonempty scores h))
