-- ===== src/Pages/Sorts.antt =====
-- db/queries/challenges of the API: the sorts whose pages show the whole list.
use mathlib.Core.List.{Perm}
use mathlib.Core.List.Perm
use brand_blitz.Prelude.{
  ℕ, ◌≤◌, ◌<◌, ◌≡◌, refl, subst, sym, inl, inr, true, false, ◌||◌, List, [], ◌∷◌, none, some, arith,
  length, ◌==◌, Bool-cases, All, map, Distinct, includes_number,
}
use brand_blitz.Pages.{
  ActiveChallengesSort, pool_desc, pool_asc, newest, ending_soon, ListedChallenge, comes_before,
  is_after, as_date, cursor_of_row, shown_rows, insert_row, order_by, active_pages,
}
use brand_blitz.Pages.Ordered.{Sorted, Comparable, IsOrder, order-Sorted}
use brand_blitz.Pages.Complete.{IsExact, all_pages_complete}

-- The cursor of the row says exactly where it stands: a time of creation has whole milliseconds, and an
-- end is there and has them too.
abbrev pub HasExactCursor : ActiveChallengesSort → ListedChallenge → Type 0
HasExactCursor pool_desc r = Unit
HasExactCursor pool_asc r = Unit
HasExactCursor newest r = as_date r.created_at ≡ r.created_at
HasExactCursor ending_soon r = (t : ℕ) × (r.ends_at ≡ some t) × (as_date t ≡ t)

pub comes_before-IsOrder : (sort : ActiveChallengesSort) → IsOrder (comes_before sort)
unfolding comes_before
comes_before-IsOrder pool_desc = record {
  asym = λ x y h. ground arith;
  trans = λ x y z h k. ground arith;
}
comes_before-IsOrder pool_asc = record {
  asym = λ x y h. ground arith;
  trans = λ x y z h k. ground arith;
}
comes_before-IsOrder newest = record {
  asym = λ x y h. ground arith;
  trans = λ x y z h k. ground arith;
}
comes_before-IsOrder ending_soon = record {
  asym = λ x y h. ground arith;
  trans = λ x y z h k. ground arith;
}

comes_before-IsExact :
    (sort : ActiveChallengesSort)
    → IsExact (comes_before sort) (is_after sort) (cursor_of_row sort) (HasExactCursor sort)
unfolding comes_before is_after cursor_of_row
comes_before-IsExact pool_desc = record {
  order = comes_before-IsOrder pool_desc;
  selects = λ x y p q. refl;
}
comes_before-IsExact pool_asc = record {
  order = comes_before-IsOrder pool_asc;
  selects = λ x y p q. refl;
}
comes_before-IsExact newest = record {
  order = comes_before-IsOrder newest;
  selects = λ x y p q. rw p refl;
}
comes_before-IsExact ending_soon = record {
  order = comes_before-IsOrder ending_soon;
  selects = λ x y p q. rw (p.1, q.1, p.2) refl;
}

differ-Comparable :
    (sort : ActiveChallengesSort) (x y : ListedChallenge)
    → (y.id == x.id) ≡ false
    → (comes_before sort x y || comes_before sort y x) ≡ true
unfolding comes_before
differ-Comparable pool_desc x y h = ground arith
differ-Comparable pool_asc x y h = ground arith
differ-Comparable newest x y h = ground arith
differ-Comparable ending_soon x y h = ground arith

abbrev pub ids : List ListedChallenge → List ℕ
ids rows = map (λ r. r.id) rows

All-Comparable :
    (sort : ActiveChallengesSort) (x : ListedChallenge) (ys : List ListedChallenge)
    → includes_number x.id (ids ys) ≡ false
    → All (λ y. (comes_before sort x y || comes_before sort y x) ≡ true) ys
All-Comparable sort x [] h = tt
All-Comparable sort x (y ∷ ys) h =
    (differ-Comparable sort x y (ground arith), All-Comparable sort x ys (ground arith))

Distinct-Comparable :
    (sort : ActiveChallengesSort) (rows : List ListedChallenge)
    → Distinct (ids rows)
    → Comparable (comes_before sort) rows
Distinct-Comparable sort [] _ = tt
Distinct-Comparable sort (x ∷ rows) (h, hs) =
    (All-Comparable sort x rows h, Distinct-Comparable sort rows hs)

insert-perm :
    (sort : ActiveChallengesSort) (x : ListedChallenge) (ys : List ListedChallenge)
    → Perm (insert_row (comes_before sort) x ys) (x ∷ ys)
unfolding insert_row
insert-perm sort x [] = Perm.refl (x ∷ [])
insert-perm sort x (y ∷ ys) = elim (Bool-cases (comes_before sort y x)) [
  | inl e ↦ rw e (Perm.trans (Perm.cons y (insert-perm sort x ys)) (Perm.swap x y ys))
  | inr e ↦ rw e (Perm.refl (x ∷ y ∷ ys))
]

order-perm :
    (sort : ActiveChallengesSort) (xs : List ListedChallenge)
    → Perm (order_by (comes_before sort) xs) xs
unfolding order_by
order-perm sort [] = Perm.refl []
order-perm sort (x ∷ xs) =
    Perm.trans (insert-perm sort x (order_by (comes_before sort) xs))
      (Perm.cons x (order-perm sort xs))

-- For each sort, where the cursors of the rows are exact and the ids differ, asking for pages of any
-- positive size until there is no cursor shows every shown challenge once, in the order of the sort.
pub active_pages_complete :
    (sort : ActiveChallengesSort) (fuel limit : ℕ) (rows : List ListedChallenge)
    → 1 ≤ limit
    → length (shown_rows rows) < fuel
    → Distinct (ids (shown_rows rows))
    → All (HasExactCursor sort) (shown_rows rows)
    → Perm (active_pages sort fuel limit none rows) (shown_rows rows)
      × Sorted (comes_before sort) (active_pages sort fuel limit none rows)
active_pages_complete sort fuel limit rows l f distinct exact =
    let comparable = Distinct-Comparable sort (shown_rows rows) distinct in
    let all =
      all_pages_complete (comes_before-IsExact sort) fuel limit (shown_rows rows) l f exact
        comparable in
    (
      subst (λ ys. Perm ys (shown_rows rows)) (sym all) (order-perm sort (shown_rows rows)),
      subst (Sorted (comes_before sort)) (sym all) (
          order-Sorted (comes_before sort) (comes_before-IsOrder sort) (shown_rows rows)
            comparable),
    )
