-- ===== src/Payouts/Retry.antt =====
-- services/payout of the API: a second run over the same winners.
use brand_blitz.Prelude.{
  ℕ, ◌≡◌, refl, ◌∙◌, sym, subst, inl, inr, ==_iff, Bool, true, false, List, [], ◌∷◌, All, none,
  some, arith, Bool-cases, ◌==◌, if◌then◌else◌,
}
use brand_blitz.Payouts.{Allocation, Payout, Table, put, create_payout, is_final, prepare_payouts}

-- The user has a payout that is sent or confirmed.
abbrev pub is_paid : Table → ℕ → Bool
is_paid table user = elim (table user) [ none ↦ false | some p ↦ is_final p.status ]

is_final-create_payout :
    (table : Table) (a : Allocation)
    → is_final (create_payout table a).status ≡ is_paid table a.user_id
unfolding create_payout
is_final-create_payout table a = ground arith

is_final-put :
    (table : Table) (a : Allocation) (u : ℕ)
    → a.user_id ≡ u
    → is_final (create_payout table a).status ≡ is_paid table u
is_final-put table a u h =
    subst (λ v. is_final (create_payout table a).status ≡ is_paid table v) h
      (is_final-create_payout table a)

is_paid-put :
    (table : Table) (a : Allocation) (u : ℕ)
    → is_paid (put table a.user_id (create_payout table a)) u ≡ is_paid table u
unfolding create_payout
is_paid-put table a u = elim (Bool-cases (a.user_id == u)) [
  | inl h ↦ rw (h, is_paid) (is_final-put table a u ((==_iff a.user_id u).0 h))
  | inr h ↦ rw (h, is_paid) refl
]

-- Of all records, none is of a user who is paid.
abbrev pub Unpaid : Table → List Allocation → Type 0
Unpaid table records = All (λ a. is_paid table a.user_id ≡ false) records

abbrev pub has_row : Table → ℕ → Bool
has_row table user = elim (table user) [ none ↦ false | some p ↦ true ]

abbrev pub Settled : Table → List Allocation → Type 0
Settled table records = All (λ a. is_paid table a.user_id ≡ true) records

module _ (blocked : ℕ → Bool) where
  prepare_payouts-Unpaid_from :
      (allocations : List Allocation) (table before : Table)
      → ((u : ℕ) → is_paid table u ≡ is_paid before u)
      → Unpaid before (prepare_payouts blocked allocations table).0
  unfolding prepare_payouts
  prepare_payouts-Unpaid_from [] table before h = tt
  prepare_payouts-Unpaid_from (a ∷ as') table before h =
      let table' = put table a.user_id (create_payout table a) in
      let rest = prepare_payouts-Unpaid_from as' table' before (λ u. is_paid-put table a u ∙ h u) in
      ground (
        arith,
        prepare_payouts-Unpaid_from as' table before h,
        rest,
        is_final-create_payout table a,
        h a.user_id,
      )

  -- The table after the upserts pays nobody, and a second pass over it finds the same records.
  pub prepare_payouts-is_paid :
      (allocations : List Allocation) (table : Table) (u : ℕ)
      → is_paid (prepare_payouts blocked allocations table).1 u ≡ is_paid table u
  unfolding prepare_payouts
  prepare_payouts-is_paid [] table u = refl
  prepare_payouts-is_paid (a ∷ as') table u =
      let table' = put table a.user_id (create_payout table a) in
      ground (
        arith,
        prepare_payouts-is_paid as' table u,
        prepare_payouts-is_paid as' table' u,
        is_paid-put table a u,
      )

  Settled-tail :
      (a : Allocation) (as' : List Allocation) (table after : Table)
      → ((u : ℕ) → is_paid table u ≡ true → is_paid after u ≡ true)
      → Settled after (prepare_payouts blocked (a ∷ as') table).0
      → (if blocked a.user_id
          then Settled after (prepare_payouts blocked as' table).0
          else (is_paid after a.user_id ≡ true)
            × Settled after
                (prepare_payouts blocked as' (put table a.user_id (create_payout table a))).0)
  unfolding prepare_payouts
  Settled-tail a as' table after later settled =
      ground (arith, later a.user_id, is_final-create_payout table a)

  -- Where all records of a run over `table` are paid in `after`, a run over what pays the same users
  -- has no records.
  pub prepare_payouts-again :
      (allocations : List Allocation) (table after late : Table)
      → ((u : ℕ) → is_paid table u ≡ true → is_paid after u ≡ true)
      → Settled after (prepare_payouts blocked allocations table).0
      → ((u : ℕ) → is_paid late u ≡ is_paid after u)
      → (prepare_payouts blocked allocations late).0 ≡ []
  unfolding prepare_payouts
  prepare_payouts-again [] table after late later settled same = refl
  prepare_payouts-again (a ∷ as') table after late later settled same =
      let table' = put table a.user_id (create_payout table a) in
      let late' = put late a.user_id (create_payout late a) in
      let tail = Settled-tail a as' table after later settled in
      elim (Bool-cases (blocked a.user_id)) [
        | inl b ↦ rw b (prepare_payouts-again as' table after late later (rw b at tail) same)
        | inr b ↦
            let (paid, rest) = rw b at tail in
            rw (b, is_final-create_payout late a ∙ same a.user_id ∙ paid)
              (prepare_payouts-again as' table' after late'
                (λ u p. later u (sym (is_paid-put table a u) ∙ p)) rest
                (λ u. is_paid-put late a u ∙ same u))
      ]

has_row-put :
    (table : Table) (a : Allocation) (p : Payout) (u : ℕ)
    → has_row table u ≡ true
    → has_row (put table a.user_id p) u ≡ true
has_row-put table a p u row = elim (Bool-cases (a.user_id == u)) [
  | inl h ↦ rw (h, has_row) refl
  | inr h ↦ rw (h, has_row) row
]

has_row-own :
    (table : Table) (a : Allocation) (p : Payout) → has_row (put table a.user_id p) a.user_id ≡ true
has_row-own table a p = rw ((==_iff a.user_id a.user_id).1 refl, has_row) refl

module _ (blocked : ℕ → Bool) where
  prepare_payouts-has_row :
      (allocations : List Allocation) (table : Table) (u : ℕ)
      → has_row table u ≡ true
      → has_row (prepare_payouts blocked allocations table).1 u ≡ true
  unfolding prepare_payouts
  prepare_payouts-has_row [] table u row = row
  prepare_payouts-has_row (a ∷ as') table u row =
      let table' = put table a.user_id (create_payout table a) in
      ground (
        arith,
        prepare_payouts-has_row as' table u row,
        prepare_payouts-has_row as' table' u (has_row-put table a (create_payout table a) u row),
      )

  -- Every record has a row in the table that the upserts leave.
  pub prepare_payouts-Rowed :
      (allocations : List Allocation) (table : Table)
      → All
          (λ a. has_row (prepare_payouts blocked allocations table).1 a.user_id ≡ true)
          (prepare_payouts blocked allocations table).0
  unfolding prepare_payouts
  prepare_payouts-Rowed [] table = tt
  prepare_payouts-Rowed (a ∷ as') table =
      let table' = put table a.user_id (create_payout table a) in
      elim (Bool-cases (blocked a.user_id)) [
        | inl b ↦ rw b (prepare_payouts-Rowed as' table)
        | inr b ↦ rw b (elim (Bool-cases (is_final (create_payout table a).status)) [
          | inl f ↦ rw f (prepare_payouts-Rowed as' table')
          | inr f ↦ rw f (
            prepare_payouts-has_row as' table' a.user_id
                (has_row-own table a (create_payout table a)),
            prepare_payouts-Rowed as' table',
          )
        ])
      ]

-- The records to pay are of users who have no payout that is sent or confirmed.
pub prepare_payouts-Unpaid :
    (blocked : ℕ → Bool) (allocations : List Allocation) (table : Table)
    → Unpaid table (prepare_payouts blocked allocations table).0
prepare_payouts-Unpaid blocked allocations table =
    prepare_payouts-Unpaid_from blocked allocations table table (λ u. refl)
