-- ===== src/Leagues/Groups.antt =====
-- db/queries/leagues of the API: users who are assigned one by one fill groups of at most 30.
use brand_blitz.Prelude.{
  ℕ, ◌+◌, ◌≤◌, ◌<◌, ◌≡◌, refl, subst, inl, inr, true, List, [], ◌∷◌, none, some, arith, length,
  keep, Bool-cases, Option-cases,
}
use brand_blitz.Leagues.{
  LeagueTier, bronze, silver, gold, same_tier, Assignment, LeagueUser, assign, is_of, in_group,
  group_size, assignment_of, max_group, available_group, next_group, league_of, find_user,
  ensure_assignment_for_user_this_week,
}

-- Every group of every week has at most 30 members, and a user at most one assignment in a week.
pub record Grouped (rows : List Assignment) : Type 0 where
  pub limited :
      (week : ℕ) (league : LeagueTier) (group : ℕ) → group_size week league group rows ≤ 30
  pub single : (user week : ℕ) → length (keep (is_of user week) rows) ≤ 1

same_tier_iff : (a b : LeagueTier) → same_tier a b ≡ true → a ≡ b
same_tier_iff bronze b h = ground arith
same_tier_iff silver b h = ground arith
same_tier_iff gold b h = ground arith

module _ (week : ℕ) (league : LeagueTier) where
  available-room :
      (rows some_rows : List Assignment) (group : ℕ)
      → available_group week league rows some_rows ≡ some group
      → group_size week league group rows < 30
  unfolding available_group
  available-room rows [] group h = ground arith
  available-room rows (a ∷ some_rows) group h =
      elim (Option-cases (available_group week league rows some_rows)) [
        | inl e ↦ ground (arith, e)
        | inr (other, e) ↦ ground (arith, e, available-room rows some_rows other e)
      ]

  beyond_max :
      (group : ℕ) (rows : List Assignment)
      → max_group week league rows < group
      → group_size week league group rows ≡ 0
  unfolding max_group
  beyond_max group [] h = refl
  beyond_max group (a ∷ rows) h = ground (arith, beyond_max group rows)

  next_group-room :
      (rows : List Assignment) → group_size week league (next_group week league rows) rows < 30
  unfolding next_group
  next_group-room rows = elim (Option-cases (available_group week league rows rows)) [
    | inl e ↦
        rw (next_group, e)
          (omega (arith, beyond_max (max_group week league rows + 1) rows (omega arith)))
    | inr (group, e) ↦ rw (next_group, e) (available-room rows rows group e)
  ]

unassigned :
    (user week : ℕ) (rows : List Assignment)
    → assignment_of user week rows ≡ none
    → length (keep (is_of user week) rows) ≡ 0
unfolding assignment_of
unassigned user week [] h = refl
unassigned user week (a ∷ rows) h = ground (arith, unassigned user week rows)

room_at :
    (week w : ℕ) (league l : LeagueTier) (group g : ℕ) (rows : List Assignment)
    → week ≡ w
    → league ≡ l
    → group ≡ g
    → group_size week league group rows < 30
    → group_size w l g rows < 30
room_at week w league l group g rows same_week same_league same_group room =
    subst (λ x. group_size w l x rows < 30) same_group
      (subst (λ x. group_size w x group rows < 30) same_league
        (subst (λ x. group_size x league group rows < 30) same_week room))

fresh_at :
    (user u week w : ℕ) (rows : List Assignment)
    → user ≡ u
    → week ≡ w
    → length (keep (is_of user week) rows) ≡ 0
    → length (keep (is_of u w) rows) ≡ 0
fresh_at user u week w rows same_user same_week fresh =
    subst (λ x. length (keep (is_of u x) rows) ≡ 0) same_week
      (subst (λ x. length (keep (is_of x week) rows) ≡ 0) same_user fresh)

assign-Grouped :
    (user week : ℕ) (league : LeagueTier) (group : ℕ) (rows : List Assignment)
    → Grouped rows
    → group_size week league group rows < 30
    → length (keep (is_of user week) rows) ≡ 0
    → Grouped (assign user league group week ∷ rows)
assign-Grouped user week league group rows grouped room fresh = record {
  limited = λ w l g.
      let new = assign user league group week in
      elim (Bool-cases (in_group w l g new)) [
        | inr other ↦ ground (arith, other, grouped.limited w l g)
        | inl own ↦ ground (
          arith,
          own,
          room_at week w league l group g rows (ground (arith, own))
              (same_tier_iff league l (ground (arith, own))) (ground (arith, own)) room,
        )
      ];
  single = λ u w.
      let new = assign user league group week in
      elim (Bool-cases (is_of u w new)) [
        | inr other ↦ ground (arith, other, grouped.single u w)
        | inl own ↦ ground (
          arith,
          own,
          fresh_at user u week w rows (ground (arith, own)) (ground (arith, own)) fresh,
        )
      ];
}

ensure-Grouped :
    (user week : ℕ) (users : List LeagueUser) (rows : List Assignment)
    → Grouped rows
    → Grouped (ensure_assignment_for_user_this_week user week users rows).1
unfolding ensure_assignment_for_user_this_week
ensure-Grouped user week users rows grouped = elim (Option-cases (assignment_of user week rows)) [
  | inr (a, e) ↦ rw (ensure_assignment_for_user_this_week, e) grouped
  | inl e ↦ elim (Option-cases (find_user user users)) [
    | inl f ↦ rw (ensure_assignment_for_user_this_week, e) (rw f grouped)
    | inr (u, f) ↦
        rw (ensure_assignment_for_user_this_week, e)
          (rw f (
            assign-Grouped user week (league_of u) (next_group week (league_of u) rows) rows grouped
              (next_group-room week (league_of u) rows) (unassigned user week rows e)))
  ]
]

-- Users who ask for their group, each with the week of the request.
unfoldable pub ensure_all : List (ℕ × ℕ) → List LeagueUser → List Assignment → List Assignment
ensure_all [] users rows = rows
ensure_all ((user, week) ∷ requests) users rows =
    ensure_all requests users (ensure_assignment_for_user_this_week user week users rows).1

-- Whoever asks for a group in whatever order, every group keeps at most 30 members, and a user at
-- most one assignment in a week.
pub ensure_all-Grouped :
    (requests : List (ℕ × ℕ)) (users : List LeagueUser) (rows : List Assignment)
    → Grouped rows
    → Grouped (ensure_all requests users rows)
unfolding ensure_all
ensure_all-Grouped [] users rows grouped = grouped
ensure_all-Grouped ((user, week) ∷ requests) users rows grouped =
    ensure_all-Grouped requests users (ensure_assignment_for_user_this_week user week users rows).1
      (ensure-Grouped user week users rows grouped)
