-- ===== src/Payouts/Results.antt =====
-- services/payout of the API: what the results of the batches leave of a run's records, and that a
-- run after a wholly successful one pays nobody again.
use brand_blitz.Prelude.{
  ℕ, ◌≡◌, refl, inl, inr, Bool, true, false, ◌||◌, List, [], ◌∷◌, All, Option, none, some, arith,
  Bool-cases, ◌==◌, if◌then◌else◌,
}
use brand_blitz.Texts.{Text, same_text}
use brand_blitz.Payouts.{
  sent, Allocation, Table, update_payout_status, BatchResult, status_of, error_of,
}
use brand_blitz.Payouts.Retry.{is_paid, has_row}

-- Records with the same address are of the same user.
abbrev pub AgreesWith : Allocation → List Allocation → Type 0
AgreesWith a records =
    All (λ b. same_text b.address a.address ≡ true → b.user_id ≡ a.user_id) records

abbrev pub Separate : List Allocation → Type 0
Separate records = All (λ a. AgreesWith a records) records

pub update-is_paid :
    (user : ℕ) (hash message : Option Text) (table : Table) (u : ℕ)
    → (has_row (update_payout_status user sent hash message table) u ≡ has_row table u)
      × (is_paid (update_payout_status user sent hash message table) u
          ≡ (if user == u then has_row table u else is_paid table u))
unfolding update_payout_status
update-is_paid user hash message table u = elim (Bool-cases (user == u)) [
  | inl h ↦ rw (h, is_paid, has_row) (ground arith)
  | inr h ↦ rw (h, is_paid, has_row) (refl, refl)
]

abbrev pub listed : Text → List Text → Bool
listed address [] = false
listed address (x ∷ xs) = same_text x address || listed address xs

abbrev pub AllSucceed : List BatchResult → Type 0
AllSucceed results = All (λ r. r.success ≡ true) results

abbrev pub covered : Text → List BatchResult → Bool
covered address [] = false
covered address (result ∷ results) = listed address result.recipients || covered address results

-- What a step does to a user of whom a row is there.
abbrev Kept : Table → Table → ℕ → Type 0
Kept table late u =
    (has_row late u ≡ has_row table u) × (is_paid table u ≡ true → is_paid late u ≡ true)

pub is_paid-has_row : (table : Table) (u : ℕ) → is_paid table u ≡ true → has_row table u ≡ true
is_paid-has_row table u h = ground arith

module _ (detail : Text) where
  abbrev step_of : BatchResult → Option ℕ → Table → Table
  step_of result user table = elim user [
    | none ↦ table
    | some v ↦
        update_payout_status v (status_of result) result.tx_hash (error_of detail result) table
  ]

pub step_paid :
    (hash : Option Text) (table : Table) (u : ℕ)
    → has_row table u ≡ true
    → is_paid (update_payout_status u sent hash none table) u ≡ true
step_paid hash table u row = ground (arith, update-is_paid u hash none table u)

-- Every record's address is among the recipients of the results.
abbrev pub Covered : List Allocation → List BatchResult → Type 0
Covered records results = All (λ a. covered a.address results ≡ true) records
