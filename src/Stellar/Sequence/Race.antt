-- ===== src/Stellar/Sequence/Race.antt =====
-- Concurrent reservations: no two are the same without a reset, and two can be with one.
use brand_blitz.Prelude.{
  ℕ, ◌+◌, Bool, true, false, ◌≤◌, ◌<◌, ◌≡◌, ◌≢◌, refl, inl, inr, none, some, arith, ◌==◌,
  Bool-cases,
}
use brand_blitz.Stellar.Sequence.{
  Store, Reservation, incr, store_base, reservation_of, reset_sequence, Phase, idle, loading,
  counting, reserved, System, update, Step, found, missing, load, count, Reach, here, next, step,
  reset, ReachWithReset, start, go, fresh,
}

abbrev counted : Store → ℕ
counted s = elim s.offset [ none ↦ 0 | some k ↦ k ]

-- What a caller holds agrees with the store.
abbrev Agrees : Store → Phase → Type 0
Agrees s idle = Unit
Agrees s loading = Unit
Agrees s (counting b) = s.base ≡ some b
Agrees s (reserved r) =
    (s.base ≡ some r.base_sequence)
    × (r ≡ reservation_of r.base_sequence r.offset)
    × (0 < r.offset)
    × (r.offset ≤ counted s)

abbrev Differ : Phase → Phase → Type 0
Differ (reserved r) (reserved q) = r.offset ≢ q.offset
Differ _ _ = Unit

record Inv (s : System) : Type 0 where
  agrees : (c : ℕ) → Agrees s.store (s.caller c)
  differ : (c d : ℕ) → c ≢ d → Differ (s.caller c) (s.caller d)

abbrev Grows : Store → Store → Type 0
Grows s t = ((b : ℕ) → s.base ≡ some b → t.base ≡ some b) × (counted s ≤ counted t)

Agrees-mono : (s t : Store) → Grows s t → (p : Phase) → Agrees s p → Agrees t p
Agrees-mono s t g idle h = tt
Agrees-mono s t g loading h = tt
Agrees-mono s t g (counting b) h = g.0 b h
Agrees-mono s t g (reserved r) (hb, hr, hp, ho) =
    let le = g.1 in (g.0 r.base_sequence hb, hr, hp, omega arith)

Differ-symm : (p q : Phase) → Differ p q → Differ q p
Differ-symm idle idle h = tt
Differ-symm idle loading h = tt
Differ-symm idle (counting b) h = tt
Differ-symm idle (reserved r) h = tt
Differ-symm loading idle h = tt
Differ-symm loading loading h = tt
Differ-symm loading (counting b) h = tt
Differ-symm loading (reserved r) h = tt
Differ-symm (counting a) idle h = tt
Differ-symm (counting a) loading h = tt
Differ-symm (counting a) (counting b) h = tt
Differ-symm (counting a) (reserved r) h = tt
Differ-symm (reserved q) idle h = tt
Differ-symm (reserved q) loading h = tt
Differ-symm (reserved q) (counting b) h = tt
Differ-symm (reserved q) (reserved r) h = λ e. h (omega arith)

-- One caller moves on, and the store grows.
move-Inv :
    {s : System} (c : ℕ) (p : Phase) (t : Store)
    → Inv s
    → Grows s.store t
    → Agrees t p
    → ((d : ℕ) → Differ p (s.caller d))
    → Inv (record s { store = t; caller = update s.caller c p })
move-Inv {s} c p t v g h new = record {
  agrees = λ d. elim (Bool-cases (c == d)) [
    | inl e ↦ rw e h
    | inr e ↦ rw e (Agrees-mono s.store t g (s.caller d) (v.agrees d))
  ];
  differ = λ d e ne. elim (Bool-cases (c == d)) [
    | inl cd ↦ elim (Bool-cases (c == e)) [
      | inl ce ↦ absurd (ground arith)
      | inr ce ↦ rw (cd, ce) (new e)
    ]
    | inr cd ↦ elim (Bool-cases (c == e)) [
      | inl ce ↦ rw (cd, ce) (Differ-symm p (s.caller d) (new d))
      | inr ce ↦ rw (cd, ce) (v.differ d e ne)
    ]
  ];
}

no_reservation : (p : Phase) (b : ℕ) → Differ (counting b) p
no_reservation p b = tt

ensure-Grows : (loaded : ℕ) (s : Store) → Grows s (store_base true loaded s).1
unfolding store_base
ensure-Grows loaded s = (λ b h. ground arith, ground arith)

ensure-base :
    (loaded : ℕ) (s : Store) → (store_base true loaded s).1.base ≡ some (store_base true loaded s).0
unfolding store_base
ensure-base loaded s = ground arith

count-Differ :
    (s : Store) (b : ℕ) (p : Phase) → Agrees s p → Differ (reserved (reservation_of b (incr s).0)) p
unfolding reservation_of
count-Differ s b idle h = tt
count-Differ s b loading h = tt
count-Differ s b (counting k) h = tt
count-Differ s b (reserved r) h = ground arith

count-Agrees :
    (s : Store) (b : ℕ)
    → s.base ≡ some b
    → Agrees (incr s).1 (reserved (reservation_of b (incr s).0))
unfolding reservation_of
count-Agrees s b h = (h, refl, ground arith, ground arith)

Step-Inv : {s t : System} → Step true s t → Inv s → Inv t
Step-Inv {s} (found c b h e) v =
    move-Inv c (counting b) s.store v (λ b h. h, omega arith) e (λ d. no_reservation (s.caller d) b)
Step-Inv {s} (missing c h e) v = move-Inv c loading s.store v (λ b h. h, omega arith) tt (λ d. tt)
Step-Inv {s} (load c loaded h) v =
    move-Inv c (counting (store_base true loaded s.store).0) (store_base true loaded s.store).1 v
      (ensure-Grows loaded s.store) (ensure-base loaded s.store) (λ d. tt)
Step-Inv {s} (count c b h) v =
    move-Inv c (reserved (reservation_of b (incr s.store).0)) (incr s.store).1 v
      (λ b h. h, ground arith) (count-Agrees s.store b (rw h at (v.agrees c)))
      (λ d. count-Differ s.store b (s.caller d) (v.agrees d))

Reach-Inv : {s t : System} → Inv s → Reach true s t → Inv t
Reach-Inv v here = v
Reach-Inv v (next r st) = Step-Inv st (Reach-Inv v r)

fresh-Inv : (store : Store) → Inv (fresh store)
fresh-Inv store = record { agrees = λ c. tt; differ = λ c d ne. tt }

-- On any store that has setIfAbsent, whatever is in it, however the awaits of any number of callers interleave and whatever the network
-- reports, no two callers hold reservations of the same account sequence or transaction sequence,
-- as long as no caller resets the sequence.
pub reservations_differ :
    (store : Store) (t : System) (c d : ℕ) (r q : Reservation)
    → Reach true (fresh store) t
    → c ≢ d
    → t.caller c ≡ reserved r
    → t.caller d ≡ reserved q
    → (r.account_sequence ≢ q.account_sequence) × (r.transaction_sequence ≢ q.transaction_sequence)
unfolding reservation_of
reservations_differ store t c d r q reach ne hc hd =
    let v = Reach-Inv (fresh-Inv store) reach in
    let rc : Agrees t.store (reserved r) = rw hc at (v.agrees c) in
    let qd : Agrees t.store (reserved q) = rw hd at (v.agrees d) in
    let rq : Differ (reserved r) (reserved q) = rw (hc, hd) at (v.differ c d ne) in
    (λ e. absurd (ground arith), λ e. absurd (ground arith))

-- A reset between another caller's two awaits lets two callers hold the same reservation, for every
-- base sequence that the store holds and the network reports again.
pub reset_may_repeat :
    (has_set_if_absent : Bool) (b : ℕ)
    → (t : System) × ReachWithReset has_set_if_absent
        (fresh (record { base = some b; offset = none }))
        t
      × (t.caller 0 ≡ reserved (reservation_of b 1))
      × (t.caller 1 ≡ reserved (reservation_of b 1))
unfolding reset_sequence
reset_may_repeat has_set_if_absent b = (
  _,
  go
      (go
        (go (go (go start (step (found 0 b refl refl))) (step (count 0 b refl)))
          (step (found 1 b refl refl)))
        (reset b))
      (step (count 1 b refl)),
  refl,
  refl,
)

-- On a store without setIfAbsent, two processes that load different bases can hold the same
-- reservation: the later base is written over the first, and the second caller counts on from it.
pub store_base-may_repeat :
    (b : ℕ)
    → (t : System) × Reach false (fresh (record { base = none; offset = none })) t
      × (t.caller 0 ≡ reserved (reservation_of (b + 1) 1))
      × (t.caller 1 ≡ reserved (reservation_of b 2))
unfolding store_base
store_base-may_repeat b = (
  _,
  next
      (next
        (next
          (next (next (next here (missing 0 refl refl)) (missing 1 refl refl))
            (load 0 (b + 1) refl))
          (count 0 (b + 1) refl))
        (load 1 b refl))
      (count 1 b refl),
  refl,
  refl,
)
