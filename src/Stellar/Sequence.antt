-- ===== src/Stellar/Sequence.antt =====
-- packages/stellar/src/sequence.ts: sequence numbers of the hot wallet's account, reserved through a
-- shared store. The store is the two keys of one prefix; a decimal text is the number that it reads
-- as. The base sequence that the network reports is an argument.
pub mod Run
pub mod Race
use brand_blitz.Prelude.{
  ℕ, zero, suc, ◌+◌, ◌-◌, ◌≡◌, Bool, true, false, List, [], ◌∷◌, Option, none, some, ◌==◌,
  if◌then◌else◌,
}

pub record Store : Type 0 where
  pub base : Option ℕ
  pub offset : Option ℕ

pub record Reservation : Type 0 where
  pub base_sequence : ℕ
  pub offset : ℕ
  pub account_sequence : ℕ
  pub transaction_sequence : ℕ

-- INCR counts from 0 where the key is missing.
abbrev pub incr : Store → ℕ × Store
incr s =
    let next : ℕ = elim s.offset [ none ↦ 1 | some k ↦ k + 1 ] in
    (next, record s { offset = some next })

-- What is loaded is stored. SET NX, where the store has it, keeps a value that another process stored
-- meanwhile; else a plain SET writes over it.
pub store_base : Bool → ℕ → Store → ℕ × Store
store_base true loaded s = elim s.base [
  | none ↦ (loaded, record s { base = some loaded })
  | some existing ↦ (existing, s)
]
store_base false loaded s = (loaded, record s { base = some loaded })

-- The base key, loaded and stored where it is missing.
pub ensure_base_sequence : Bool → ℕ → Store → ℕ × Store
unfolding store_base
ensure_base_sequence has_set_if_absent loaded s = elim s.base [
  | none ↦ store_base has_set_if_absent loaded s
  | some existing ↦ (existing, s)
]

pub reservation_of : ℕ → ℕ → Reservation
reservation_of base_sequence offset = record {
  base_sequence = base_sequence;
  offset = offset;
  account_sequence = base_sequence + (offset - 1);
  transaction_sequence = base_sequence + (offset - 1) + 1;
}

pub reserve_sequence : Bool → ℕ → Store → Reservation × Store
unfolding ensure_base_sequence reservation_of
reserve_sequence has_set_if_absent loaded s =
    let (base_sequence, s') = ensure_base_sequence has_set_if_absent loaded s in
    let (offset, s'') = incr s' in (reservation_of base_sequence offset, s'')

pub reset_sequence : ℕ → Store → ℕ × Store
reset_sequence loaded s = (loaded, record { base = some loaded; offset = none })

-- One caller of `reserveSequence`, between its awaits. A caller that shares another's pending load
-- is one that finds the base stored.
pub data Phase : Type 0 where
  idle loading : Phase
  counting : ℕ → Phase
  reserved : Reservation → Phase

pub record System : Type 0 where
  pub store : Store
  pub caller : ℕ → Phase

abbrev pub update : (ℕ → Phase) → ℕ → Phase → ℕ → Phase
update f c p d = if c == d then p else f d

-- The awaits of any number of concurrent callers, in any order, on a store with or without
-- setIfAbsent. What the network reports is up to it at each load.
pub data Step (has_set_if_absent : Bool) : System → System → Type 0 where
  found :
      {s : System} (c b : ℕ)
      → s.caller c ≡ idle
      → s.store.base ≡ some b
      → Step has_set_if_absent s (record s { caller = update s.caller c (counting b) })
  missing :
      {s : System} (c : ℕ)
      → s.caller c ≡ idle
      → s.store.base ≡ none
      → Step has_set_if_absent s (record s { caller = update s.caller c loading })
  load :
      {s : System} (c loaded : ℕ)
      → s.caller c ≡ loading
      → Step has_set_if_absent s (record s {
        store = (store_base has_set_if_absent loaded s.store).1;
        caller = update s.caller c (counting (store_base has_set_if_absent loaded s.store).0);
      })
  count :
      {s : System} (c b : ℕ)
      → s.caller c ≡ counting b
      → Step has_set_if_absent s (record s {
        store = (incr s.store).1;
        caller = update s.caller c (reserved (reservation_of b (incr s.store).0));
      })

pub data Reach (has_set_if_absent : Bool) (s : System) : System → Type 0 where
  here : Reach has_set_if_absent s s
  next :
      {t u : System}
      → Reach has_set_if_absent s t
      → Step has_set_if_absent t u
      → Reach has_set_if_absent s u

-- With resets by callers that met a bad sequence.
pub data StepOrReset (has_set_if_absent : Bool) : System → System → Type 0 where
  step : {s t : System} → Step has_set_if_absent s t → StepOrReset has_set_if_absent s t
  reset :
      {s : System} (loaded : ℕ)
      → StepOrReset has_set_if_absent s (record s { store = (reset_sequence loaded s.store).1 })

pub data ReachWithReset (has_set_if_absent : Bool) (s : System) : System → Type 0 where
  start : ReachWithReset has_set_if_absent s s
  go :
      {t u : System}
      → ReachWithReset has_set_if_absent s t
      → StepOrReset has_set_if_absent t u
      → ReachWithReset has_set_if_absent s u

abbrev pub fresh : Store → System
fresh store = record { store = store; caller = λ c. idle }
