-- ===== src/Pages.antt =====
-- db/pagination of the API, and the lists of db/queries/challenges that use it: keyset pages. A query
-- keeps the rows behind the cursor, orders them, and takes one more than the limit.
pub mod Ordered
pub mod Complete
pub mod Sorts
pub mod Dropped
use brand_blitz.Prelude.{
  ℕ, zero, suc, ◌+◌, ◌*◌, ◌/◌, Bool, true, false, ◌&&◌, ◌||◌, List, [], ◌∷◌, ◌++◌, Option, none,
  some, length, take, keep, ltb, ◌==◌, if◌then◌else◌,
}

-- The last of a list, `fallback` where it is empty.
abbrev pub last_or {ℓ} : {A : Type ℓ} → A → List A → A
last_or fallback [] = fallback
last_or fallback (x ∷ xs) = last_or x xs

module _ {ℓ} {A : Type ℓ} (before : A → A → Bool) where
  -- `ORDER BY`.
  insert_row : A → List A → List A
  insert_row x [] = x ∷ []
  insert_row x (y ∷ ys) = let rest = insert_row x ys in if before y x then y ∷ rest else x ∷ y ∷ ys

  unfoldable pub order_by : List A → List A
  unfolding insert_row
  order_by [] = []
  order_by (x ∷ xs) = insert_row x (order_by xs)

module _ {ℓ κ} {A : Type ℓ} {C : Type κ} (before : A → A → Bool) (after : C → A → Bool)
    (cursor_of : A → C) where
  abbrev behind : Option C → List A → List A
  behind none rows = rows
  behind (some cursor) rows = keep (after cursor) rows

  abbrev next_cursor : ℕ → List A → List A → Option C
  next_cursor limit fetched [] = none
  next_cursor limit fetched (x ∷ xs) =
      if ltb limit (length fetched) then some (cursor_of (last_or x xs)) else none

  -- A page, and the cursor of the next one.
  unfoldable pub fetch_page : ℕ → Option C → List A → List A × Option C
  fetch_page limit cursor rows =
      let fetched = take (limit + 1) (order_by before (behind cursor rows)) in
      (take limit fetched, next_cursor limit fetched (take limit fetched))

  -- A reader who asks for pages until there is no cursor, `fuel` times at most.
  unfoldable pub all_pages : ℕ → ℕ → Option C → List A → List A
  all_pages zero limit cursor rows = []
  all_pages (suc fuel) limit cursor rows =
      let page = fetch_page limit cursor rows in
      page.0 ++ elim page.1 [ none ↦ [] | some next ↦ all_pages fuel limit (some next) rows ]

pub data ActiveChallengesSort : Type 0 where
  pool_desc pool_asc newest ending_soon : ActiveChallengesSort

-- The columns that order and select the rows. The times are in microseconds.
pub record ListedChallenge : Type 0 where
  pub id : ℕ
  pub pool_amount_stroops : ℕ
  pub created_at : ℕ
  pub ends_at : Option ℕ
  pub shown : Bool

-- The value of the first key, or null, and the id.
abbrev pub Cursor : Type 0
Cursor = Option ℕ × ℕ

abbrev less_or : ℕ → ℕ → Bool → Bool
less_or x y tie = ltb x y || (x == y && tie)

-- NULLS LAST.
abbrev ends_first : Option ℕ → Option ℕ → Bool → Bool
ends_first (some x) (some y) tie = less_or x y tie
ends_first (some x) none tie = true
ends_first none (some y) tie = false
ends_first none none tie = tie

-- `orderBy` of the sort.
unfoldable pub comes_before : ActiveChallengesSort → ListedChallenge → ListedChallenge → Bool
comes_before pool_desc a b = less_or b.pool_amount_stroops a.pool_amount_stroops (ltb b.id a.id)
comes_before pool_asc a b = less_or a.pool_amount_stroops b.pool_amount_stroops (ltb a.id b.id)
comes_before newest a b = less_or b.created_at a.created_at (ltb b.id a.id)
comes_before ending_soon a b = ends_first a.ends_at b.ends_at (ltb a.id b.id)

-- A comparison with null is not true.
abbrev over : Option ℕ → ℕ → Bool → Bool
over none x tie = false
over (some v) x tie = less_or v x tie

abbrev under : Option ℕ → ℕ → Bool → Bool
under none x tie = false
under (some v) x tie = less_or x v tie

abbrev end_behind : Cursor → ListedChallenge → Option ℕ → Bool
end_behind (v, id) r (some x) = over v x (ltb id r.id)
end_behind (none, id) r none = ltb id r.id
end_behind (some v, id) r none = false

-- `cursorClause` of the sort.
unfoldable pub is_after : ActiveChallengesSort → Cursor → ListedChallenge → Bool
is_after pool_desc (v, id) r = under v r.pool_amount_stroops (ltb r.id id)
is_after pool_asc (v, id) r = over v r.pool_amount_stroops (ltb id r.id)
is_after newest (v, id) r = under v r.created_at (ltb r.id id)
is_after ending_soon cursor r = end_behind cursor r r.ends_at

-- A time becomes a `Date`, which has milliseconds.
abbrev pub as_date : ℕ → ℕ
as_date time = time / 1000 * 1000

-- What `encodeCursor` is given of a row. That `decodeCursorSafe` finds the same values again is the
-- affair of JSON and base64.
unfoldable pub cursor_of_row : ActiveChallengesSort → ListedChallenge → Cursor
cursor_of_row pool_desc r = (some r.pool_amount_stroops, r.id)
cursor_of_row pool_asc r = (some r.pool_amount_stroops, r.id)
cursor_of_row newest r = (some (as_date r.created_at), r.id)
cursor_of_row ending_soon r = (elim r.ends_at [ none ↦ none | some t ↦ some (as_date t) ], r.id)

abbrev pub shown_rows : List ListedChallenge → List ListedChallenge
shown_rows rows = keep (λ r. r.shown) rows

unfoldable pub get_active_challenges_sorted :
    ActiveChallengesSort
    → Option Cursor
    → ℕ
    → List ListedChallenge
    → List ListedChallenge × Option Cursor
get_active_challenges_sorted sort cursor limit rows =
    fetch_page (comes_before sort) (is_after sort) (cursor_of_row sort) limit cursor
      (shown_rows rows)

-- A reader of the whole list, from a cursor on.
abbrev pub active_pages :
    ActiveChallengesSort → ℕ → ℕ → Option Cursor → List ListedChallenge → List ListedChallenge
active_pages sort fuel limit cursor rows =
    all_pages (comes_before sort) (is_after sort) (cursor_of_row sort) fuel limit cursor
      (shown_rows rows)

-- The pages of `getActiveChallengesCursor`, by the id alone.
unfoldable pub get_active_challenges_cursor :
    Option ℕ → ℕ → List ListedChallenge → List ListedChallenge × Option ℕ
get_active_challenges_cursor cursor limit rows =
    fetch_page (λ a b. ltb a.id b.id) (λ id r. ltb id r.id) (λ r. r.id) limit cursor
      (shown_rows rows)
