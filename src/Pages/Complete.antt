-- ===== src/Pages/Complete.antt =====
-- db/pagination of the API: pages by a cursor that selects what the order puts behind its row show
-- every row once, in the order.
use brand_blitz.Prelude.{
  ℕ, zero, suc, ◌+◌, ◌≤◌, ◌<◌, ◌≡◌, refl, ap, sym, subst, ◌∙◌, inl, inr, Bool, true, false, List,
  [], ◌∷◌, ◌++◌, append-nil, append_assoc, Option, none, some, arith, length, take, drop,
  length-drop, take-append-drop, keep, ltb, ltb→lt, Bool-cases, All,
}
use brand_blitz.Pages.{last_or, insert_row, order_by, behind, next_cursor, fetch_page, all_pages}
use brand_blitz.Pages.Ordered.{Sorted, Comparable, IsOrder, All-order, order-Sorted, order-keep}

take-take : {A : Type 0} (n : ℕ) (xs : List A) → take n (take (suc n) xs) ≡ take n xs
take-take zero xs = refl
take-take (suc n) [] = refl
take-take (suc n) (x ∷ xs) = ap (◌∷◌ x) (take-take n xs)

length-take_more :
    {A : Type 0} (n : ℕ) (xs : List A) → n < length xs → length (take (suc n) xs) ≡ suc n
length-take_more zero [] h = absurd (omega arith)
length-take_more zero (x ∷ xs) h = refl
length-take_more (suc n) [] h = absurd (omega arith)
length-take_more (suc n) (x ∷ xs) h = ap suc (length-take_more n xs (omega arith))

take-short : {A : Type 0} (n : ℕ) (xs : List A) → length xs ≤ n → take n xs ≡ xs
take-short zero [] h = refl
take-short (suc n) [] h = refl
take-short zero (x ∷ xs) h = absurd (omega arith)
take-short (suc n) (x ∷ xs) h = ap (◌∷◌ x) (take-short n xs (omega arith))

split_last :
    {A : Type 0} (x : A) (xs : List A) → (init : List A) × (x ∷ xs ≡ init ++ last_or x xs ∷ [])
split_last x [] = ([], refl)
split_last x (y ∷ ys) = let (init, e) = split_last y ys in (x ∷ init, ap (◌∷◌ x) e)

regroup :
    {A : Type 0} (pre init : List A) (x : A) (rest : List A)
    → pre ++ ((init ++ x ∷ []) ++ rest) ≡ (pre ++ init) ++ x ∷ rest
regroup pre init x rest = simp append_assoc

length-insert :
    {A : Type 0} (before : A → A → Bool) (x : A) (ys : List A)
    → length (insert_row before x ys) ≡ suc (length ys)
unfolding insert_row
length-insert before x [] = refl
length-insert before x (y ∷ ys) = ground (arith, length-insert before x ys)

length-order :
    {A : Type 0} (before : A → A → Bool) (xs : List A) → length (order_by before xs) ≡ length xs
unfolding order_by
length-order before [] = refl
length-order before (x ∷ xs) =
    length-insert before x (order_by before xs) ∙ ap suc (length-order before xs)

-- An order whose cursors select, among the rows that meet `P`, what stands behind their row.
pub record IsExact {A C : Type 0} (before : A → A → Bool) (after : C → A → Bool) (cursor_of : A → C)
    (P : A → Type 0) : Type 0 where
  pub order : IsOrder before
  pub selects : (x y : A) → P x → P y → after (cursor_of x) y ≡ before x y

module _ {A C : Type 0} {before : A → A → Bool} {after : C → A → Bool} {cursor_of : A → C}
    {P : A → Type 0} (exact : IsExact before after cursor_of P) where
  keep-behind :
      (x : A) (ys : List A)
      → P x
      → All P ys
      → All (λ y. before x y ≡ true) ys
      → keep (after (cursor_of x)) ys ≡ ys
  keep-behind x [] p _ _ = refl
  keep-behind x (y ∷ ys) p (q, qs) (e, es) =
      rw (exact.selects x y p q ∙ e) (ap (◌∷◌ y) (keep-behind x ys p qs es))

  before_self : (x : A) → before x x ≡ false
  before_self x = elim (Bool-cases (before x x)) [ inl e ↦ exact.order.asym x x e | inr e ↦ e ]

  All-at_append :
      (Q : A → Type 0) (pre : List A) (x : A) (post : List A) → All Q (pre ++ x ∷ post) → Q x
  All-at_append Q [] x post (q, qs) = q
  All-at_append Q (y ∷ pre) x post (q, qs) = All-at_append Q pre x post qs

  -- In a sorted list, a row's cursor selects what follows the row.
  keep_after :
      (pre : List A) (x : A) (post : List A)
      → All P (pre ++ x ∷ post)
      → Sorted before (pre ++ x ∷ post)
      → keep (after (cursor_of x)) (pre ++ x ∷ post) ≡ post
  keep_after [] x post (p, ps) (first, rest) =
      rw (exact.selects x x p p ∙ before_self x) (keep-behind x post p ps first)
  keep_after (y ∷ pre) x post (q, qs) (first, rest) =
      let p = All-at_append P pre x post qs in
      let later = All-at_append (λ z. before y z ≡ true) pre x post first in
      rw (exact.selects x y p q ∙ exact.order.asym y x later) (keep_after pre x post qs rest)

  -- The page of what a query finds.
  abbrev page_of : ℕ → List A → List A × Option C
  page_of limit ys = (
    take limit (take (limit + 1) ys),
    next_cursor before after cursor_of limit (take (limit + 1) ys)
        (take limit (take (limit + 1) ys)),
  )

  next-short :
      (limit : ℕ) (fetched items : List A)
      → length fetched ≤ limit
      → next_cursor before after cursor_of limit fetched items ≡ none
  next-short limit fetched [] h = refl
  next-short limit fetched (x ∷ items) h = ground arith

  page-short : (limit : ℕ) (ys : List A) → length ys ≤ limit → page_of limit ys ≡ (ys, none)
  page-short limit ys h =
      let whole : take (limit + 1) ys ≡ ys = take-short (limit + 1) ys (omega arith) in
      rw (whole, take-short limit ys h, next-short limit ys ys h) refl

  -- A page that is not the last one ends with a row whose cursor is the next.
  page-long :
      (limit : ℕ) (ys : List A)
      → 1 ≤ limit
      → limit < length ys
      → (init : List A) × (l : A) × (take limit ys ≡ init ++ l ∷ [])
        × (page_of limit ys ≡ (take limit ys, some (cursor_of l)))
  page-long limit [] k h = absurd (omega arith)
  page-long zero (y ∷ ys) k h = absurd (omega arith)
  page-long (suc limit) (y ∷ ys) k h =
      let (init, e) = split_last y (take limit ys) in
      let next : suc limit + 1 ≡ suc (suc limit) = omega arith in
      (
        init,
        last_or y (take limit ys),
        e,
        rw (next, take-take limit ys, length-take_more limit ys (omega arith)) (ground arith),
      )

  abbrev walk_on : ℕ → ℕ → List A → List A × Option C → List A
  walk_on fuel limit rows page = page.0 ++ elim page.1 [
    | none ↦ []
    | some next ↦ all_pages before after cursor_of fuel limit (some next) rows
  ]

  all_pages_lem :
      (fuel limit : ℕ) (rows ys : List A) (cursor : Option C)
      → order_by before (behind before after cursor_of cursor rows) ≡ ys
      → all_pages before after cursor_of (suc fuel) limit cursor rows
        ≡ walk_on fuel limit rows (page_of limit ys)
  unfolding all_pages fetch_page
  all_pages_lem fuel limit rows ys cursor at =
      ap (λ zs. walk_on fuel limit rows (page_of limit zs)) at

  -- The pages from a cursor on, where `ys` is what the query finds behind it.
  walk :
      (fuel limit : ℕ) (rows pre ys : List A) (cursor : Option C)
      → 1 ≤ limit
      → length ys < fuel
      → All P (order_by before rows)
      → Comparable before rows
      → order_by before rows ≡ pre ++ ys
      → order_by before (behind before after cursor_of cursor rows) ≡ ys
      → all_pages before after cursor_of fuel limit cursor rows ≡ ys
  walk zero limit rows pre ys cursor l f ps c split at = absurd (omega arith)
  walk (suc fuel) limit rows pre ys cursor l f ps c split at =
      all_pages_lem fuel limit rows ys cursor at ∙ elim (Bool-cases (ltb limit (length ys))) [
        | inr short ↦
            ap (walk_on fuel limit rows) (page-short limit ys (ground (arith, short)))
            ∙ append-nil ys
        | inl long ↦
            let (init, x, items, page) = page-long limit ys l (ground (arith, long)) in
            let rest = drop limit ys in
            let whole : order_by before rows ≡ (pre ++ init) ++ x ∷ rest =
              split
              ∙ ap (◌++◌ pre) (sym (take-append-drop limit ys) ∙ ap (λ t. t ++ rest) items)
              ∙ regroup pre init x rest in
            let px = subst (All P) whole ps in
            let sorted = subst (Sorted before) whole (order-Sorted before exact.order rows c) in
            let found : order_by before (keep (after (cursor_of x)) rows) ≡ rest =
              order-keep before exact.order (after (cursor_of x)) rows c
              ∙ ap (keep (after (cursor_of x))) whole
              ∙ keep_after (pre ++ init) x rest px sorted in
            ap (walk_on fuel limit rows) page
            ∙ ap (◌++◌ (take limit ys)) (
                walk fuel limit rows ((pre ++ init) ++ x ∷ []) rest (some (cursor_of x)) l
                  (omega (arith, length-drop limit ys, ltb→lt limit (length ys) long)) ps c
                  (whole ∙ sym (append_assoc (pre ++ init) (x ∷ []) rest)) found)
            ∙ take-append-drop limit ys
      ]

  -- Asking for pages until there is no cursor gives every row once, in the order.
  pub all_pages_complete :
      (fuel limit : ℕ) (rows : List A)
      → 1 ≤ limit
      → length rows < fuel
      → All P rows
      → Comparable before rows
      → all_pages before after cursor_of fuel limit none rows ≡ order_by before rows
  all_pages_complete fuel limit rows l f ps c =
      walk fuel limit rows [] (order_by before rows) none l
        (omega (arith, length-order before rows, f)) (All-order before exact.order P rows ps) c refl
        refl
