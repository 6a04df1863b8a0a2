-- ===== src/Referrals/Bonus/Queue.antt =====
-- services/referrals of the API: the bonuses that payouts queue are bounded, and a referral earns
-- one at most.
use brand_blitz.Prelude.{
  ℕ, ◌/◌, ◌≤◌, ◌≡◌, refl, sym, subst, inl, inr, Bool, true, false, List, [], ◌∷◌, All, Option, none,
  some, arith, ltb, Bool-cases, Option-cases, includes_number, Distinct, All-includes,
}
use brand_blitz.Referrals.{Referral, find_referral_by_referred_id, mark_referral_rewarded}
use brand_blitz.Referrals.Bonus.{
  ReferralPayout, Bonuses, Tables, Win, find_referral_payout, create_referral_payout,
  referee_amount, referrer_cap, settle_bonus, create_bonus, queue_referral_bonus_for_payout,
  queue_all, is_flagged, resolve_payout_address, both, is_pending, capped, bonus_row,
}

abbrev pub is_rewarded : ℕ → List Referral → Bool
is_rewarded referred rows = elim (find_referral_by_referred_id referred rows) [
  | none ↦ false
  | some r ↦ r.rewarded
]

abbrev pub IsBounded : ReferralPayout → Type 0
IsBounded p =
    (1 ≤ p.referrer_amount_stroops)
    × (p.referrer_amount_stroops ≤ referrer_cap)
    × (p.referred_amount_stroops ≡ referee_amount)

-- Every bonus is within its bounds, and every queued one is of a referral that is marked as rewarded
-- and queued once.
pub record BonusesOnce (s : Bonuses) : Type 0 where
  pub bounded : All IsBounded s.payouts
  pub marked : All (λ id. is_rewarded id s.referrals ≡ true) s.queued
  pub once : Distinct s.queued

find-referred :
    (referred : ℕ) (rows : List Referral) (r : Referral)
    → find_referral_by_referred_id referred rows ≡ some r
    → r.referred_id ≡ referred
unfolding find_referral_by_referred_id
find-referred referred [] r h = ground arith
find-referred referred (q ∷ rows) r h = ground (arith, find-referred referred rows r)

pub find-referred_payout :
    (referred : ℕ) (rows : List ReferralPayout) (p : ReferralPayout)
    → find_referral_payout referred rows ≡ some p
    → p.referred_id ≡ referred
unfolding find_referral_payout
find-referred_payout referred [] p h = ground arith
find-referred_payout referred (q ∷ rows) p h = ground (arith, find-referred_payout referred rows p)

is_rewarded-mark :
    (v u : ℕ) (rows : List Referral)
    → is_rewarded v rows ≡ true
    → is_rewarded v (mark_referral_rewarded u rows) ≡ true
unfolding find_referral_by_referred_id mark_referral_rewarded
is_rewarded-mark v u [] h = ground arith
is_rewarded-mark v u (r ∷ rows) h = ground (arith, is_rewarded-mark v u rows)

is_rewarded-mark_own :
    (u : ℕ) (rows : List Referral) (r : Referral)
    → find_referral_by_referred_id u rows ≡ some r
    → is_rewarded u (mark_referral_rewarded u rows) ≡ true
unfolding find_referral_by_referred_id mark_referral_rewarded
is_rewarded-mark_own u [] r h = ground arith
is_rewarded-mark_own u (q ∷ rows) r h = ground (arith, is_rewarded-mark_own u rows r)

All-mark :
    (u : ℕ) (rows : List Referral) (ids : List ℕ)
    → All (λ id. is_rewarded id rows ≡ true) ids
    → All (λ id. is_rewarded id (mark_referral_rewarded u rows) ≡ true) ids
All-mark u rows [] _ = tt
All-mark u rows (id ∷ ids) (h, hs) = (is_rewarded-mark id u rows h, All-mark u rows ids hs)

-- The row that an insertion returns is of the referral, and all rows stay within the bounds.
create_payout_lem :
    (row : ReferralPayout) (rows : List ReferralPayout)
    → IsBounded row
    → All IsBounded rows
    → ((create_referral_payout row rows).0.referred_id ≡ row.referred_id)
      × All IsBounded (create_referral_payout row rows).1
unfolding create_referral_payout
create_payout_lem row rows b bs = elim (Option-cases (find_referral_payout row.referred_id rows)) [
  | inl e ↦ rw (e, create_referral_payout) (refl, (b, bs))
  | inr (p, e) ↦ rw (e, create_referral_payout) (find-referred_payout row.referred_id rows p e, bs)
]

settle-BonusesOnce :
    (enqueues : Bool) (payout : ReferralPayout) (rows : List ReferralPayout) (s : Bonuses)
    (r : Referral)
    → BonusesOnce s
    → All IsBounded rows
    → find_referral_by_referred_id payout.referred_id s.referrals ≡ some r
    → r.rewarded ≡ false
    → BonusesOnce (settle_bonus enqueues (payout, rows) s)
unfolding settle_bonus
settle-BonusesOnce enqueues payout rows s r once bounded found unrewarded =
    let u = payout.referred_id in
    let unqueued : includes_number u s.queued ≡ false =
      elim (Bool-cases (includes_number u s.queued)) [
        | inl e ↦
            let rewarded =
              All-includes (λ id. is_rewarded id s.referrals ≡ true) s.queued u once.marked e in
            absurd (ground (arith, rewarded, found))
        | inr e ↦ e
      ] in
    let marked = All-mark u s.referrals s.queued once.marked in
    let own = is_rewarded-mark_own u s.referrals r found in
    elim (Bool-cases (is_pending payout.status)) [
      | inl p ↦ rw p (elim (Bool-cases enqueues) [
        | inl q ↦
            rw q
              (record { bounded = bounded; marked = (own, marked); once = (unqueued, once.once) })
        | inr q ↦ rw q (record { bounded = bounded; marked = marked; once = once.once })
      ])
      | inr p ↦ rw p (record { bounded = bounded; marked = once.marked; once = once.once })
    ]

module _ (db : Tables) where
  create_bonus-BonusesOnce :
      (enqueues : Bool) (r : Referral) (challenge : Option ℕ) (win : ℕ) (s : Bonuses)
      → BonusesOnce s
      → find_referral_by_referred_id r.referred_id s.referrals ≡ some r
      → r.rewarded ≡ false
      → BonusesOnce (create_bonus db enqueues r challenge win s)
  unfolding create_bonus
  create_bonus-BonusesOnce enqueues r challenge win s once found unrewarded =
      elim (Option-cases (
        both (resolve_payout_address (db.find_user_by_id r.referrer_id))
          (resolve_payout_address (db.find_user_by_id r.referred_id)))) [
            | inl e ↦ rw (e, create_bonus) once
            | inr ((a, b), e) ↦ elim (Bool-cases (ltb (capped (win / 10)) 1)) [
              | inl small ↦ rw (e, create_bonus, small) once
              | inr large ↦
                  let row = bonus_row r challenge (capped (win / 10)) a b in
                  let made =
                    create_payout_lem row s.payouts (ground arith, ground arith, refl)
                      once.bounded in
                  rw (e, create_bonus, large)
                    (settle-BonusesOnce enqueues (create_referral_payout row s.payouts).0
                      (create_referral_payout row s.payouts).1 s r once made.1 (rw made.0 found)
                      unrewarded)
            ]
          ]

  queue-BonusesOnce :
      (enqueues : Bool) (u : ℕ) (challenge : Option ℕ) (win : ℕ) (s : Bonuses)
      → BonusesOnce s
      → BonusesOnce (queue_referral_bonus_for_payout db enqueues u challenge win s)
  unfolding queue_referral_bonus_for_payout
  queue-BonusesOnce enqueues u challenge win s once =
      elim (Option-cases (find_referral_by_referred_id u s.referrals)) [
        | inl e ↦ rw (e, queue_referral_bonus_for_payout) once
        | inr (r, e) ↦ elim (Bool-cases r.rewarded) [
          | inl done ↦ rw (e, queue_referral_bonus_for_payout, done) once
          | inr more ↦ elim (Bool-cases (is_flagged db u challenge)) [
            | inl flag ↦
                rw (e, queue_referral_bonus_for_payout, more, flag)
                  (record { bounded = once.bounded; marked = once.marked; once = once.once })
            | inr clean ↦
                rw (e, queue_referral_bonus_for_payout, more, clean)
                  (create_bonus-BonusesOnce enqueues r challenge win s once
                    (subst (λ v. find_referral_by_referred_id v s.referrals ≡ some r)
                      (sym (find-referred u s.referrals r e)) e)
                    more)
          ]
        ]
      ]

-- Whatever challenges pay to whom, the bonus of a referral is queued at most once, and only where the
-- referral is marked as rewarded; each bonus is between 1 and 50,000,000 stroops for the referrer and
-- 10,000,000 stroops for the referred user.
pub queue_all-BonusesOnce :
    (db : Tables) (wins : List Win) (s : Bonuses)
    → BonusesOnce s
    → BonusesOnce (queue_all db wins s)
unfolding queue_all
queue_all-BonusesOnce db [] s once = once
queue_all-BonusesOnce db (w ∷ ws) s once =
    queue_all-BonusesOnce db ws
      (queue_referral_bonus_for_payout db w.enqueues w.user_id w.challenge_id w.amount_stroops s)
      (queue-BonusesOnce db w.enqueues w.user_id w.challenge_id w.amount_stroops s once)
