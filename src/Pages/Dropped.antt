-- ===== src/Pages/Dropped.antt =====
-- db/queries/challenges of the API: what the pages of the sort `ending_soon` leave out.
use brand_blitz.Prelude.{
  ℕ, zero, suc, ◌+◌, ◌≡◌, ◌⊎◌, refl, inl, inr, List, [], ◌∷◌, none, some, arith, length, take, keep,
  ltb, Bool-cases, Option-cases, All, All-append,
}
use brand_blitz.Pages.{
  last_or, order_by, next_cursor, fetch_page, all_pages, ending_soon, as_date, ListedChallenge,
  comes_before, is_after, cursor_of_row, shown_rows, active_pages,
}
use brand_blitz.Pages.Sorts.{comes_before-IsOrder}
use brand_blitz.Pages.Ordered.{All-order}

abbrev pub HasEnd : ListedChallenge → Type 0
HasEnd r = (t : ℕ) × (r.ends_at ≡ some t)

keep-HasEnd :
    (v id : ℕ) (rows : List ListedChallenge)
    → All HasEnd (keep (is_after ending_soon (some v, id)) rows)
unfolding is_after
keep-HasEnd v id [] = tt
keep-HasEnd v id (r ∷ rows) = elim (Bool-cases (is_after ending_soon (some v, id) r)) [
  | inr skip ↦ ground (arith, skip, keep-HasEnd v id rows)
  | inl taken ↦ elim (Option-cases r.ends_at) [
    | inl e ↦ absurd (ground (arith, taken, e))
    | inr (t, e) ↦ rw taken ((t, e), keep-HasEnd v id rows)
  ]
]

take-All :
    (P : ListedChallenge → Type 0) (n : ℕ) (rows : List ListedChallenge)
    → All P rows
    → All P (take n rows)
take-All P zero rows _ = tt
take-All P (suc n) [] _ = tt
take-All P (suc n) (r ∷ rows) (p, ps) = (p, take-All P n rows ps)

last-All :
    (P : ListedChallenge → Type 0) (r : ListedChallenge) (rows : List ListedChallenge)
    → P r
    → All P rows
    → P (last_or r rows)
last-All P r [] p _ = p
last-All P r (q ∷ rows) p (h, hs) = last-All P q rows h hs

-- The cursor after a page whose rows have ends.
next-HasEnd :
    (limit : ℕ) (fetched items : List ListedChallenge)
    → All HasEnd items
    → (next_cursor
          (comes_before ending_soon)
          (is_after ending_soon)
          (cursor_of_row ending_soon)
          limit
          fetched
          items
        ≡ none)
      ⊎ ((v : ℕ) × (id : ℕ) × (next_cursor
              (comes_before ending_soon)
              (is_after ending_soon)
              (cursor_of_row ending_soon)
              limit
              fetched
              items
            ≡ some (some v, id)))
unfolding cursor_of_row
next-HasEnd limit fetched [] _ = inl refl
next-HasEnd limit fetched (x ∷ items) (h, hs) = elim (Bool-cases (ltb limit (length fetched))) [
  | inr done ↦ inl (rw done refl)
  | inl more ↦
      let (t, e) = last-All HasEnd x items h hs in
      inr (as_date t, (last_or x items).id, rw (more, e) refl)
]

page-HasEnd :
    (limit v id : ℕ) (rows : List ListedChallenge)
    → All HasEnd (
        take
          (limit + 1)
          (order_by (comes_before ending_soon) (keep (is_after ending_soon (some v, id)) rows)))
page-HasEnd limit v id rows = take-All HasEnd (limit + 1) _ (
    All-order (comes_before ending_soon) (comes_before-IsOrder ending_soon) HasEnd
      (keep (is_after ending_soon (some v, id)) rows) (keep-HasEnd v id rows))

-- Under `ending_soon`, no page behind a challenge that has an end shows a challenge without one, and
-- neither does any page after it: such challenges are seen on the first page or behind one another only.
pub active_pages-HasEnd :
    (fuel limit v id : ℕ) (rows : List ListedChallenge)
    → All HasEnd (active_pages ending_soon fuel limit (some (some v, id)) rows)
unfolding all_pages fetch_page
active_pages-HasEnd zero limit v id rows = tt
active_pages-HasEnd (suc fuel) limit v id rows =
    let fetched = take (limit + 1) (
      order_by (comes_before ending_soon)
        (keep (is_after ending_soon (some v, id)) (shown_rows rows))) in
    let here = take-All HasEnd limit fetched (page-HasEnd limit v id (shown_rows rows)) in
    All-append HasEnd (take limit fetched) _ here
      (elim (next-HasEnd limit fetched (take limit fetched) here) [
        | inl e ↦ rw e tt
        | inr (w, k, e) ↦ rw e (active_pages-HasEnd fuel limit w k rows)
      ])
