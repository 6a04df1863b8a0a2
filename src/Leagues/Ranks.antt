-- ===== src/Leagues/Ranks.antt =====
-- db/queries/leagues of the API: the ranks and flags of a week follow the points.
use brand_blitz.Prelude.{
  ℕ, ◌+◌, ◌≤◌, ◌<◌, ◌≡◌, ◌≢◌, ◌⊎◌, ◌↔◌, refl, ap, ◌∙◌, Bool, true, false, ◌&&◌, List, [], ◌∷◌, some,
  arith, length, keep, map, get_elem?, zero, suc, ◌==◌, ==_iff, subst, sym,
}
use mathlib.Core.Option.{some-injective}
use brand_blitz.Leagues.{
  LeagueTier, bronze, gold, same_tier, Assignment, in_group, group_size, beats, rank_of,
  is_promoted, is_demoted, flagged, rank_and_flag_week,
}

module _ (p q : Assignment → Bool) (implies : (x : Assignment) → p x ≡ true → q x ≡ true) where
  keep-le : (xs : List Assignment) → length (keep p xs) ≤ length (keep q xs)
  keep-le [] = omega arith
  keep-le (x ∷ xs) = ground (arith, keep-le xs, implies x)

  keep-lt :
      (xs : List Assignment) (i : ℕ) (a : Assignment)
      → get_elem? xs i ≡ some a
      → p a ≡ false
      → q a ≡ true
      → length (keep p xs) < length (keep q xs)
  keep-lt [] i a at h k = ground arith
  keep-lt (x ∷ xs) zero a at h k =
      let same = some-injective x a at in
      let px : p x ≡ false = subst (λ y. p y ≡ false) (sym same) h in
      let qx : q x ≡ true = subst (λ y. q y ≡ true) (sym same) k in
      ground (arith, keep-le xs, px, qx)
  keep-lt (x ∷ xs) (suc i) a at h k = ground (arith, keep-lt xs i a at h k, implies x)

-- `a` and `b` are in one group of the week, and `a` has more points, or as many and the lesser user.
pub record IsBetter (week : ℕ) (a b : Assignment) : Type 0 where
  pub first_week : a.week_start ≡ week
  pub second_week : b.week_start ≡ week
  pub same_league : a.league ≡ b.league
  pub same_group : a.group_id ≡ b.group_id
  pub ahead :
      (b.weekly_points < a.weekly_points)
      ⊎ (a.weekly_points ≡ b.weekly_points) × (a.user_id < b.user_id)

same_tier_refl : (l : LeagueTier) → same_tier l l ≡ true
same_tier_refl l = ground arith

own_group :
    (week : ℕ) (a : Assignment) → a.week_start ≡ week → in_group week a.league a.group_id a ≡ true
own_group week a h = ground (arith, same_tier_refl a.league)

IsBetter-beats : (week : ℕ) (a b : Assignment) → IsBetter week a b → beats a b ≡ true
IsBetter-beats week a b better = ground (arith, better.ahead)

beats_self : (a : Assignment) → beats a a ≡ false
beats_self a = ground arith

beats_trans : (x a b : Assignment) → beats x a ≡ true → beats a b ≡ true → beats x b ≡ true
beats_trans x a b h k = ground arith

rank-le-size :
    (week i : ℕ) (rows : List Assignment) (a : Assignment)
    → get_elem? rows i ≡ some a
    → a.week_start ≡ week
    → rank_of week rows a ≤ group_size week a.league a.group_id rows
rank-le-size week i rows a at h =
    let p = λ (b : Assignment). in_group week a.league a.group_id b && beats b a in
    let q = λ (b : Assignment). in_group week a.league a.group_id b in
    let fewer =
      keep-lt p q (λ x e. ground (arith, e)) rows i a at (ground (arith, beats_self a))
        (own_group week a h) in
    omega (arith, fewer)

rank-lt :
    (week i : ℕ) (rows : List Assignment) (a b : Assignment)
    → get_elem? rows i ≡ some a
    → IsBetter week a b
    → rank_of week rows a < rank_of week rows b
rank-lt week i rows a b at better =
    let p = λ (x : Assignment). in_group week a.league a.group_id x && beats x a in
    let q = λ (x : Assignment). in_group week b.league b.group_id x && beats x b in
    let ahead = IsBetter-beats week a b better in
    let fewer =
      keep-lt p q
        (λ x e. ground (arith, e, better.same_league, better.same_group, beats_trans x a b, ahead))
        rows i a at (ground (arith, beats_self a))
        (ground (
          arith,
          own_group week a better.first_week,
          better.same_league,
          better.same_group,
          ahead,
        )) in
    omega (arith, fewer)

get_elem?-map :
    (f : Assignment → Assignment) (rows : List Assignment) (i : ℕ) (a : Assignment)
    → get_elem? rows i ≡ some a
    → get_elem? (map f rows) i ≡ some (f a)
get_elem?-map f [] i a at = ground arith
get_elem?-map f (x ∷ rows) zero a at = ap (λ o. some (f o)) (some-injective x a at)
get_elem?-map f (x ∷ rows) (suc i) a at = get_elem?-map f rows i a at

size-same :
    (week : ℕ) (rows : List Assignment) (a b : Assignment)
    → IsBetter week a b
    → group_size week a.league a.group_id rows ≡ group_size week b.league b.group_id rows
size-same week rows a b better =
    ap (λ l. group_size week l a.group_id rows) better.same_league
    ∙ ap (λ g. group_size week b.league g rows) better.same_group

flagged-now :
    (week : ℕ) (rows : List Assignment) (a : Assignment)
    → a.week_start ≡ week
    → ((flagged week rows a).rank_in_group ≡ some (rank_of week rows a))
      × ((flagged week rows a).promoted ≡ is_promoted a.league (rank_of week rows a))
      × ((flagged week rows a).demoted
          ≡ is_demoted a.league (rank_of week rows a) (group_size week a.league a.group_id rows))
flagged-now week rows a h =
    let now : (a.week_start == week) ≡ true = (==_iff a.week_start week).1 h in
    (rw now refl, rw now refl, rw now refl)

is_promoted_iff :
    (l : LeagueTier) (rank : ℕ) → (is_promoted l rank ≡ true) ↔ (l ≢ gold) × (rank ≤ 3)
is_promoted_iff l rank = ground arith

is_demoted_iff :
    (l : LeagueTier) (rank size : ℕ)
    → 1 ≤ rank
    → (is_demoted l rank size ≡ true) ↔ (l ≢ bronze) × (size < rank + 3)
is_demoted_iff l rank size h = ground arith

promoted_mono :
    (l m : LeagueTier) (r q : ℕ) → l ≡ m → r < q → is_promoted m q ≡ true → is_promoted l r ≡ true
promoted_mono l m r q same less h = ground arith

demoted_mono :
    (l m : LeagueTier) (r q n k : ℕ)
    → l ≡ m
    → n ≡ k
    → r < q
    → is_demoted l r n ≡ true
    → is_demoted m q k ≡ true
demoted_mono l m r q n k same size less h = ground arith

-- Of two members of a group of the week, the one with more points, or with as many and the lesser id,
-- gets the better rank; ranks are between 1 and the size of the group; promoted are exactly the ranks
-- up to 3 outside gold, and demoted the last three outside bronze; where the other is promoted, so is
-- the better one, and where the better one is demoted, so is the other.
pub rank_and_flag_week-ordered :
    (week i j : ℕ) (rows : List Assignment) (a b : Assignment)
    → get_elem? rows i ≡ some a
    → get_elem? rows j ≡ some b
    → IsBetter week a b
    → (get_elem? (rank_and_flag_week week rows) i ≡ some (flagged week rows a))
      × (get_elem? (rank_and_flag_week week rows) j ≡ some (flagged week rows b))
      × ((flagged week rows a).rank_in_group ≡ some (rank_of week rows a))
      × ((flagged week rows b).rank_in_group ≡ some (rank_of week rows b))
      × (1 ≤ rank_of week rows a)
      × (rank_of week rows a < rank_of week rows b)
      × (rank_of week rows b ≤ group_size week b.league b.group_id rows)
      × ((flagged week rows a).promoted ≡ true ↔ (a.league ≢ gold) × (rank_of week rows a ≤ 3))
      × ((flagged week rows a).demoted ≡ true
          ↔ (a.league ≢ bronze)
            × (group_size week a.league a.group_id rows < rank_of week rows a + 3))
      × ((flagged week rows b).promoted ≡ true → (flagged week rows a).promoted ≡ true)
      × ((flagged week rows a).demoted ≡ true → (flagged week rows b).demoted ≡ true)
unfolding rank_and_flag_week
rank_and_flag_week-ordered week i j rows a b first second better =
    let less = rank-lt week i rows a b first better in
    let fa = flagged-now week rows a better.first_week in
    let fb = flagged-now week rows b better.second_week in
    (
      get_elem?-map (flagged week rows) rows i a first,
      get_elem?-map (flagged week rows) rows j b second,
      fa.0,
      fb.0,
      omega arith,
      less,
      rank-le-size week j rows b second better.second_week,
      rw fa.1 (is_promoted_iff a.league (rank_of week rows a)),
      rw fa.2 (is_demoted_iff a.league (rank_of week rows a) _ (omega arith)),
      λ h. fa.1 ∙ promoted_mono a.league b.league _ _ better.same_league less (sym fb.1 ∙ h),
      λ h.
          fb.2
          ∙ demoted_mono a.league b.league _ _ _ _ better.same_league
              (size-same week rows a b better) less (sym fa.2 ∙ h),
    )
