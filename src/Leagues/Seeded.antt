-- ===== src/Leagues/Seeded.antt =====
-- db/queries/leagues of the API: what the seeding of a week leaves.
use brand_blitz.Prelude.{
  ℕ, ◌+◌, ◌-◌, ◌*◌, ◌≤◌, ◌≡◌, refl, ap, subst, sym, ◌∙◌, inl, inr, Bool, true, false, ◌&&◌, not,
  List, [], ◌∷◌, ◌++◌, none, some, arith, length, keep, map, ltb, ◌==◌, ==_iff, get_elem?, zero,
  suc, if◌then◌else◌, Bool-cases, Option-cases, All,
}
use mathlib.Core.Option.{some-injective}
use brand_blitz.Leagues.{
  LeagueTier, bronze, silver, gold, same_tier, Assignment, LeagueUser, assign, is_of, in_group,
  group_size, assignment_of, target_league, Numbered, number_of, numbered, group_of_number,
  seed_rows, seeded_user, seed_week_assignments,
}

-- How many of `x` users in a row are in group `group` of 30.
abbrev pub filled : ℕ → ℕ → ℕ
filled group x =
    if ltb x (30 * (group - 1))
    then 0
    else if ltb x (30 * (group - 1) + 30)
    then x - 30 * (group - 1)
    else 30

filled-next :
    (group k : ℕ)
    → 1 ≤ group
    → filled group (k + 1) ≡ (if group_of_number (k + 1) == group then 1 else 0) + filled group k
filled-next group k h = ground arith

number_of-numbered :
    (l league : LeagueTier) (n : Numbered)
    → number_of l (numbered league n) ≡ (if same_tier league l then 1 else 0) + number_of l n
number_of-numbered bronze bronze n = omega arith
number_of-numbered bronze silver n = omega arith
number_of-numbered bronze gold n = omega arith
number_of-numbered silver bronze n = omega arith
number_of-numbered silver silver n = omega arith
number_of-numbered silver gold n = omega arith
number_of-numbered gold bronze n = omega arith
number_of-numbered gold silver n = omega arith
number_of-numbered gold gold n = omega arith

same_tier_iff : (a b : LeagueTier) → same_tier a b ≡ true → a ≡ b
same_tier_iff bronze b h = ground arith
same_tier_iff silver b h = ground arith
same_tier_iff gold b h = ground arith

same_tier_refl : (l : LeagueTier) → same_tier l l ≡ true
same_tier_refl bronze = refl
same_tier_refl silver = refl
same_tier_refl gold = refl

-- No row is of the week.
abbrev pub IsFresh : ℕ → List Assignment → Type 0
IsFresh week rows = All (λ a. (a.week_start == week) ≡ false) rows

fresh-unassigned :
    (user week : ℕ) (rows : List Assignment)
    → IsFresh week rows
    → assignment_of user week rows ≡ none
unfolding assignment_of
fresh-unassigned user week [] _ = refl
fresh-unassigned user week (a ∷ rows) (h, hs) = ground (arith, fresh-unassigned user week rows hs)

fresh-size :
    (week : ℕ) (league : LeagueTier) (group : ℕ) (rows : List Assignment)
    → IsFresh week rows
    → group_size week league group rows ≡ 0
fresh-size week league group [] _ = refl
fresh-size week league group (a ∷ rows) (h, hs) =
    ground (arith, fresh-size week league group rows hs)

-- The users who are not deleted and whom the week's seeding puts into the league.
abbrev pub goes_to : ℕ → List Assignment → LeagueTier → LeagueUser → Bool
goes_to week rows l u = not u.deleted && same_tier (target_league week rows u) l

abbrev pub headed_for : ℕ → List Assignment → LeagueTier → List LeagueUser → ℕ
headed_for week rows l users = length (keep (goes_to week rows l) users)

own-step :
    (week user group : ℕ) (l : LeagueTier) (n : Numbered)
    → 1 ≤ group
    → (if in_group week l group (assign user l (group_of_number (number_of l n + 1)) week)
          then 1
          else 0)
        + filled group (number_of l n)
      ≡ filled group (number_of l (numbered l n))
own-step week user group l n positive = ground (
  arith,
  (==_iff week week).1 refl,
  same_tier_refl l,
  filled-next group (number_of l n) positive,
  number_of-numbered l l n,
)

-- What one seeded user adds to the group.
seed-step :
    (week user group : ℕ) (l league : LeagueTier) (n : Numbered)
    → 1 ≤ group
    → (if in_group week l group (assign user league (group_of_number (number_of league n + 1)) week)
          then 1
          else 0)
        + filled group (number_of l n)
      ≡ filled group (number_of l (numbered league n))
seed-step week user group l league n positive = elim (Bool-cases (same_tier league l)) [
  | inr other ↦ ground (arith, other, number_of-numbered l league n)
  | inl same ↦
      subst
        (λ k.
          (if in_group week l group (assign user k (group_of_number (number_of k n + 1)) week)
              then 1
              else 0)
            + filled group (number_of l n)
          ≡ filled group (number_of l (numbered k n)))
        (sym (same_tier_iff league l same)) (own-step week user group l n positive)
]

module _ (week : ℕ) (rows : List Assignment) (fresh : IsFresh week rows) (l : LeagueTier)
    (group : ℕ) (positive : 1 ≤ group) where
  seed_rows-size :
      (n : Numbered) (users : List LeagueUser)
      → group_size week l group (seed_rows week rows n users) + filled group (number_of l n)
        ≡ filled group (number_of l n + headed_for week rows l users)
  unfolding seed_rows
  seed_rows-size n [] = ground arith
  seed_rows-size n (u ∷ us) =
      let league = target_league week rows u in
      let counted = number_of-numbered l league n in
      elim (Bool-cases u.deleted) [
        | inl gone ↦ rw (seed_rows, gone) (ground (arith, seed_rows-size n us, gone))
        | inr live ↦
            rw (seed_rows, live, fresh-unassigned u.id week rows fresh)
              (ground (
                arith,
                seed-step week u.id group l league n positive,
                seed_rows-size (numbered league n) us,
                counted,
                live,
              ))
      ]

size-append :
    (week : ℕ) (l : LeagueTier) (group : ℕ) (xs ys : List Assignment)
    → group_size week l group (xs ++ ys) ≡ group_size week l group xs + group_size week l group ys
size-append week l group [] ys = omega arith
size-append week l group (x ∷ xs) ys = ground (arith, size-append week l group xs ys)

number_of-none : (l : LeagueTier) → number_of l (record { bronzes = 0; silvers = 0; golds = 0 }) ≡ 0
number_of-none bronze = refl
number_of-none silver = refl
number_of-none gold = refl

-- The seeding of a week that has no rows fills the groups of each league in turn: a group holds 30 of
-- the users who go to the league, or what is left of them after the groups before it.
pub seed_week_assignments-size :
    (week : ℕ) (users : List LeagueUser) (rows : List Assignment)
    → IsFresh week rows
    → (l : LeagueTier) (group : ℕ) → 1 ≤ group
    → group_size week l group (seed_week_assignments week users rows).1
      ≡ filled group (headed_for week rows l users)
unfolding seed_week_assignments
seed_week_assignments-size week users rows fresh l group positive =
    let none_yet : Numbered = record { bronzes = 0; silvers = 0; golds = 0 } in
    ground (
      arith,
      size-append week l group (seed_rows week rows none_yet users) rows,
      seed_rows-size week rows fresh l group positive none_yet users,
      fresh-size week l group rows fresh,
      number_of-none l,
    )

seeded_user-new :
    (week : ℕ) (rows : List Assignment) (u : LeagueUser)
    → assignment_of u.id week rows ≡ none
    → seeded_user week rows u ≡ u
seeded_user-new week rows u new = ground (arith, new)

get_elem?-map :
    (f : LeagueUser → LeagueUser) (users : List LeagueUser) (i : ℕ) (u : LeagueUser)
    → get_elem? users i ≡ some u
    → get_elem? (map f users) i ≡ some (f u)
get_elem?-map f [] i u at = ground arith
get_elem?-map f (v ∷ users) zero u at = ap (λ o. some (f o)) (some-injective v u at)
get_elem?-map f (v ∷ users) (suc i) u at = get_elem?-map f users i u at

module _ (week : ℕ) (rows : List Assignment) (u : LeagueUser) where
  -- A row of the user in the league that the last week led to.
  abbrev is_target : Assignment → Bool
  is_target a = is_of u.id week a && same_tier a.league (target_league week rows u)

  count-append :
      (xs ys : List Assignment)
      → length (keep is_target (xs ++ ys)) ≡ length (keep is_target xs) + length (keep is_target ys)
  count-append [] ys = omega arith
  count-append (x ∷ xs) ys = ground (arith, count-append xs ys)

  own-target : (group : ℕ) → is_target (assign u.id (target_league week rows u) group week) ≡ true
  own-target group = ground (
    arith,
    (==_iff week week).1 refl,
    (==_iff u.id u.id).1 refl,
    same_tier_refl (target_league week rows u),
  )

  seeded-head :
      (n : Numbered) (users : List LeagueUser)
      → u.deleted ≡ false
      → assignment_of u.id week rows ≡ none
      → 1 ≤ length (keep is_target (seed_rows week rows n (u ∷ users)))
  unfolding seed_rows
  seeded-head n users live new =
      let group = group_of_number (number_of (target_league week rows u) n + 1) in
      rw (seed_rows, live, new) (ground (arith, own-target group))

  seeded-there :
      (n : Numbered) (users : List LeagueUser) (i : ℕ)
      → u.deleted ≡ false
      → assignment_of u.id week rows ≡ none
      → get_elem? users i ≡ some u
      → 1 ≤ length (keep is_target (seed_rows week rows n users))
  unfolding seed_rows
  seeded-there n [] i live new at = ground arith
  seeded-there n (v ∷ users) zero live new at =
      subst (λ w. 1 ≤ length (keep is_target (seed_rows week rows n (w ∷ users))))
        (sym (some-injective v u at)) (seeded-head n users live new)
  seeded-there n (v ∷ users) (suc i) live new at = elim (Bool-cases v.deleted) [
    | inl gone ↦ rw (seed_rows, gone) (seeded-there n users i live new at)
    | inr there ↦
        let rest = seeded-there (numbered (target_league week rows v) n) users i live new at in
        elim (Option-cases (assignment_of v.id week rows)) [
          | inr (a, e) ↦ rw (seed_rows, there, e) rest
          | inl e ↦ rw (seed_rows, there, e) (ground (arith, rest))
        ]
  ]

-- The users' update does not see the rows that the same statement inserts: a user without a row of the
-- week gets one in the league that the last week led to, and keeps the old league as the user's.
pub seed_week_assignments-stale :
    (week i : ℕ) (users : List LeagueUser) (rows : List Assignment) (u : LeagueUser)
    → get_elem? users i ≡ some u
    → u.deleted ≡ false
    → assignment_of u.id week rows ≡ none
    → (get_elem? (seed_week_assignments week users rows).0 i ≡ some u)
      × (1
          ≤ length (
              keep
                (λ a. is_of u.id week a && same_tier a.league (target_league week rows u))
                (seed_week_assignments week users rows).1))
unfolding seed_week_assignments
seed_week_assignments-stale week i users rows u at live new =
    let none_yet : Numbered = record { bronzes = 0; silvers = 0; golds = 0 } in
    (
      get_elem?-map (seeded_user week rows) users i u at
          ∙ ap some (seeded_user-new week rows u new),
      omega (
        arith,
        count-append week rows u (seed_rows week rows none_yet users) rows,
        seeded-there week rows u none_yet users i live new at,
      ),
    )
