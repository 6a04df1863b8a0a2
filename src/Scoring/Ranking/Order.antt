-- ===== src/Scoring/Ranking/Order.antt =====
-- The ranking holds every session once, best first.
use Prim.Native.String.{String}
use mathlib.Core.List.{Perm}
use mathlib.Core.List.Perm
use brand_blitz.Prelude.{
  ℕ, ◌<◌, ◌≡◌, ◌≢◌, ◌⊎◌, inl, inr, List, [], ◌∷◌, none, some, arith, All, Bool-cases,
}
use brand_blitz.Scoring.Ranking.{
  SessionSummary, Sign, plus, is_plus, compare_sessions, insert_session, sort_sessions,
  rank_winners,
}

-- What is relied on of `localeCompare`: it orders texts totally.
pub record IsCollation (locale_compare : String → String → Sign) : Type 0 where
  pub asym : (s t : String) → locale_compare s t ≡ plus → locale_compare t s ≢ plus
  pub trans :
      (s t u : String)
      → locale_compare s t ≢ plus
      → locale_compare t u ≢ plus
      → locale_compare s u ≢ plus

-- The session's end is a date.
abbrev pub HasEnd : SessionSummary → Type 0
HasEnd s = (t : ℕ) × (s.ended_at ≡ some t)

abbrev pub end_of : SessionSummary → ℕ
end_of s = elim s.ended_at [ none ↦ 0 | some t ↦ t ]

-- `x` may stand before `y`: a higher score, or the same score and an earlier end, or the same score
-- and end and a user id that does not come later.
abbrev pub MayPrecede : (String → String → Sign) → SessionSummary → SessionSummary → Type 0
MayPrecede locale_compare x y =
    (y.total_score < x.total_score)
    ⊎ ((x.total_score ≡ y.total_score)
        × ((end_of x < end_of y)
            ⊎ ((end_of x ≡ end_of y) × (locale_compare x.user_id y.user_id ≢ plus))))

abbrev pub BestFirst : (String → String → Sign) → List SessionSummary → Type 0
BestFirst locale_compare [] = Unit
BestFirst locale_compare (x ∷ xs) =
    All (MayPrecede locale_compare x) xs × BestFirst locale_compare xs

module _ {locale_compare : String → String → Sign} (collation : IsCollation locale_compare) where
  abbrev Precedes : SessionSummary → SessionSummary → Type 0
  Precedes x y = compare_sessions locale_compare x y ≢ plus

  abbrev Ranked : List SessionSummary → Type 0
  Ranked [] = Unit
  Ranked (x ∷ xs) = All (Precedes x) xs × Ranked xs

  compare_asym :
      (x y : SessionSummary)
      → HasEnd x
      → HasEnd y
      → compare_sessions locale_compare x y ≡ plus
      → Precedes y x
  unfolding compare_sessions
  compare_asym x y (s, hs) (t, ht) h = ground (arith, collation.asym x.user_id y.user_id)

  compare_trans :
      (x y z : SessionSummary)
      → HasEnd x
      → HasEnd y
      → HasEnd z
      → Precedes x y
      → Precedes y z
      → Precedes x z
  unfolding compare_sessions
  compare_trans x y z (s, hs) (t, ht) (u, hu) p q =
      ground (arith, collation.trans x.user_id y.user_id z.user_id)

  All-trans :
      (x y : SessionSummary) (zs : List SessionSummary)
      → HasEnd x
      → HasEnd y
      → All HasEnd zs
      → Precedes x y
      → All (Precedes y) zs
      → All (Precedes x) zs
  All-trans x y [] hx hy hz p q = tt
  All-trans x y (z ∷ zs) hx hy (hz, hzs) p (q, qs) =
      (compare_trans x y z hx hy hz p q, All-trans x y zs hx hy hzs p qs)

  All-insert :
      (P : SessionSummary → Type 0) (x : SessionSummary) (ys : List SessionSummary)
      → P x
      → All P ys
      → All P (insert_session locale_compare x ys)
  unfolding insert_session
  All-insert P x [] p _ = (p, tt)
  All-insert P x (y ∷ ys) p (q, qs) =
      elim (Bool-cases (is_plus (compare_sessions locale_compare x y))) [
        | inl e ↦ rw e (q, All-insert P x ys p qs)
        | inr e ↦ rw e (p, (q, qs))
      ]

  insert-Ranked :
      (x : SessionSummary) (ys : List SessionSummary)
      → HasEnd x
      → All HasEnd ys
      → Ranked ys
      → Ranked (insert_session locale_compare x ys)
  unfolding insert_session
  insert-Ranked x [] hx _ _ = (tt, tt)
  insert-Ranked x (y ∷ ys) hx (hy, hys) (first, rest) =
      elim (Bool-cases (is_plus (compare_sessions locale_compare x y))) [
        | inl e ↦ rw e (
          All-insert (Precedes y) x ys (compare_asym x y hx hy (ground arith)) first,
          insert-Ranked x ys hx hys rest,
        )
        | inr e ↦
            let p : Precedes x y = ground arith in
            rw e ((p, All-trans x y ys hx hy hys p first), (first, rest))
      ]

  sort-HasEnd :
      (xs : List SessionSummary) → All HasEnd xs → All HasEnd (sort_sessions locale_compare xs)
  unfolding sort_sessions
  sort-HasEnd [] _ = tt
  sort-HasEnd (x ∷ xs) (h, hs) = All-insert HasEnd x _ h (sort-HasEnd xs hs)

  sort-Ranked :
      (xs : List SessionSummary) → All HasEnd xs → Ranked (sort_sessions locale_compare xs)
  unfolding sort_sessions
  sort-Ranked [] _ = tt
  sort-Ranked (x ∷ xs) (h, hs) = insert-Ranked x _ h (sort-HasEnd xs hs) (sort-Ranked xs hs)

  MayPrecede-of_Precedes :
      (x y : SessionSummary) → HasEnd x → HasEnd y → Precedes x y → MayPrecede locale_compare x y
  unfolding compare_sessions
  MayPrecede-of_Precedes x y (s, hs) (t, ht) p = ground arith

  All-MayPrecede :
      (x : SessionSummary) (ys : List SessionSummary)
      → HasEnd x
      → All HasEnd ys
      → All (Precedes x) ys
      → All (MayPrecede locale_compare x) ys
  All-MayPrecede x [] _ _ _ = tt
  All-MayPrecede x (y ∷ ys) hx (hy, hys) (p, ps) =
      (MayPrecede-of_Precedes x y hx hy p, All-MayPrecede x ys hx hys ps)

  BestFirst-of_Ranked :
      (xs : List SessionSummary) → All HasEnd xs → Ranked xs → BestFirst locale_compare xs
  BestFirst-of_Ranked [] _ _ = tt
  BestFirst-of_Ranked (x ∷ xs) (h, hs) (p, ps) =
      (All-MayPrecede x xs h hs p, BestFirst-of_Ranked xs hs ps)

module _ (locale_compare : String → String → Sign) where
  insert-perm :
      (x : SessionSummary) (ys : List SessionSummary)
      → Perm (insert_session locale_compare x ys) (x ∷ ys)
  unfolding insert_session
  insert-perm x [] = Perm.refl (x ∷ [])
  insert-perm x (y ∷ ys) = elim (Bool-cases (is_plus (compare_sessions locale_compare x y))) [
    | inl e ↦ rw e (Perm.trans (Perm.cons y (insert-perm x ys)) (Perm.swap x y ys))
    | inr e ↦ rw e (Perm.refl (x ∷ y ∷ ys))
  ]

  sort-perm : (xs : List SessionSummary) → Perm (sort_sessions locale_compare xs) xs
  unfolding sort_sessions
  sort-perm [] = Perm.refl []
  sort-perm (x ∷ xs) =
      Perm.trans (insert-perm x (sort_sessions locale_compare xs)) (Perm.cons x (sort-perm xs))

-- When every session has a valid end date and `localeCompare` orders texts totally, the full
-- ranking lists exactly the given sessions, best first: of two sessions the earlier in the ranking
-- has the higher score, or the same score and the earlier end, or also the same end and a user id
-- that does not come later.
pub rank_winners-BestFirst :
    (locale_compare : String → String → Sign)
    → IsCollation locale_compare
    → (sessions : List SessionSummary) → All HasEnd sessions
    → BestFirst locale_compare (rank_winners locale_compare sessions none)
      × Perm (rank_winners locale_compare sessions none) sessions
unfolding rank_winners
rank_winners-BestFirst locale_compare collation sessions h = (
  BestFirst-of_Ranked collation _ (sort-HasEnd collation sessions h)
      (sort-Ranked collation sessions h),
  sort-perm locale_compare sessions,
)
