-- ===== src/Pages/Ordered.antt =====
-- db/pagination of the API: the order of a query sorts the rows, and commutes with the selection.
use brand_blitz.Prelude.{
  ◌≡◌, refl, inl, inr, Bool, true, false, ◌||◌, List, [], ◌∷◌, arith, keep, if◌then◌else◌,
  Bool-cases, All,
}
use brand_blitz.Pages.{insert_row, order_by}

module _ {A : Type 0} (before : A → A → Bool) where
  abbrev pub Sorted : List A → Type 0
  Sorted [] = Unit
  Sorted (x ∷ xs) = All (λ y. before x y ≡ true) xs × Sorted xs

  -- Of any two rows, one comes before the other.
  abbrev pub Comparable : List A → Type 0
  Comparable [] = Unit
  Comparable (x ∷ xs) = All (λ y. (before x y || before y x) ≡ true) xs × Comparable xs

-- What is asked of an order: it is strict and transitive.
pub record IsOrder {A : Type 0} (before : A → A → Bool) : Type 0 where
  pub asym : (x y : A) → before x y ≡ true → before y x ≡ false
  pub trans : (x y z : A) → before x y ≡ true → before y z ≡ true → before x z ≡ true

module _ {A : Type 0} (before : A → A → Bool) (order : IsOrder before) where
  All-insert :
      (P : A → Type 0) (x : A) (ys : List A) → P x → All P ys → All P (insert_row before x ys)
  unfolding insert_row
  All-insert P x [] p _ = (p, tt)
  All-insert P x (y ∷ ys) p (q, qs) = elim (Bool-cases (before y x)) [
    | inl e ↦ rw e (q, All-insert P x ys p qs)
    | inr e ↦ rw e (p, (q, qs))
  ]

  pub All-order : (P : A → Type 0) (xs : List A) → All P xs → All P (order_by before xs)
  unfolding order_by
  All-order P [] _ = tt
  All-order P (x ∷ xs) (p, ps) = All-insert P x (order_by before xs) p (All-order P xs ps)

  All-behind :
      (x y : A) (ys : List A)
      → before x y ≡ true
      → All (λ z. before y z ≡ true) ys
      → All (λ z. before x z ≡ true) ys
  All-behind x y [] e _ = tt
  All-behind x y (z ∷ zs) e (f, fs) = (order.trans x y z e f, All-behind x y zs e fs)

  insert-Sorted :
      (x : A) (ys : List A)
      → All (λ y. (before x y || before y x) ≡ true) ys
      → Sorted before ys
      → Sorted before (insert_row before x ys)
  unfolding insert_row
  insert-Sorted x [] _ _ = (tt, tt)
  insert-Sorted x (y ∷ ys) (c, cs) (first, rest) = elim (Bool-cases (before y x)) [
    | inl e ↦ rw e (All-insert (λ z. before y z ≡ true) x ys e first, insert-Sorted x ys cs rest)
    | inr e ↦
        let x_first : before x y ≡ true = ground (arith, c, e) in
        rw e ((x_first, All-behind x y ys x_first first), (first, rest))
  ]

  pub order-Sorted : (xs : List A) → Comparable before xs → Sorted before (order_by before xs)
  unfolding order_by
  order-Sorted [] _ = tt
  order-Sorted (x ∷ xs) (c, cs) =
      insert-Sorted x (order_by before xs) (All-order (λ y. (before x y || before y x) ≡ true) xs c)
        (order-Sorted xs cs)

  -- A row that is not behind `y` stands before all that a sorted list has behind `y`.
  insert-first :
      (p : A → Bool) (x y : A) (ys : List A)
      → before y x ≡ false
      → All (λ z. before y z ≡ true) ys
      → insert_row before x (keep p ys) ≡ x ∷ keep p ys
  unfolding insert_row
  insert-first p x y [] e _ = refl
  insert-first p x y (z ∷ zs) e (f, fs) = elim (Bool-cases (p z)) [
    | inr skip ↦ rw skip (insert-first p x y zs e fs)
    | inl keep_it ↦
        let not_behind : before z x ≡ false = elim (Bool-cases (before z x)) [
          | inl bad ↦ absurd (ground (arith, order.trans y z x f bad, e))
          | inr good ↦ good
        ] in
        rw (keep_it, not_behind) refl
  ]

  keep-insert :
      (p : A → Bool) (x : A) (ys : List A)
      → Sorted before ys
      → keep p (insert_row before x ys)
        ≡ (if p x then insert_row before x (keep p ys) else keep p ys)
  unfolding insert_row
  keep-insert p x [] _ = refl
  keep-insert p x (y ∷ ys) (first, rest) = elim (Bool-cases (before y x)) [
    | inl e ↦ ground (arith, e, keep-insert p x ys rest)
    | inr e ↦ ground (arith, e, insert-first p x y ys e first)
  ]

  pub order-keep :
      (p : A → Bool) (xs : List A)
      → Comparable before xs
      → order_by before (keep p xs) ≡ keep p (order_by before xs)
  unfolding order_by
  order-keep p [] _ = refl
  order-keep p (x ∷ xs) (c, cs) =
      ground (arith, keep-insert p x (order_by before xs) (order-Sorted xs cs), order-keep p xs cs)
