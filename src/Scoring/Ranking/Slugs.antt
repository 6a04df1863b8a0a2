-- ===== src/Scoring/Ranking/Slugs.antt =====
-- Badge slugs without duplicates.
use Prim.Native.String.{String}
use text.Mathlib.Text.{◌==◌ as str_eq}
use text.Mathlib.TextEquality.{eq_iff}
use brand_blitz.Prelude.{◌≡◌, refl, inl, inr, false, ◌||◌, List, [], ◌∷◌, ◌++◌, arith, Bool-cases}
use brand_blitz.Scoring.Ranking.{has_slug, add_all, deduplicate_badge_slugs}

-- No slug occurs twice.
abbrev pub Distinct : List String → Type 0
Distinct [] = Unit
Distinct (s ∷ set) = (has_slug s set ≡ false) × Distinct set

has_slug-append :
    (slug : String) (xs ys : List String)
    → has_slug slug (xs ++ ys) ≡ (has_slug slug xs || has_slug slug ys)
has_slug-append slug [] ys = refl
has_slug-append slug (x ∷ xs) ys = ground (arith, has_slug-append slug xs ys)

str_eq_comm : (s t : String) → str_eq s t ≡ str_eq t s
str_eq_comm s t = ground (arith, eq_iff s t, eq_iff t s)

Distinct-append :
    (slug : String) (set : List String)
    → Distinct set
    → has_slug slug set ≡ false
    → Distinct (set ++ (slug ∷ []))
Distinct-append slug [] _ _ = (refl, tt)
Distinct-append slug (s ∷ set) (fresh, rest) h =
    ground
      (arith, has_slug-append s set (slug ∷ []), str_eq_comm slug s, Distinct-append slug set rest)

add_all-Distinct : (set slugs : List String) → Distinct set → Distinct (add_all set slugs)
unfolding add_all
add_all-Distinct set [] h = h
add_all-Distinct set (slug ∷ slugs) h = elim (Bool-cases (has_slug slug set)) [
  | inl e ↦ rw e (add_all-Distinct set slugs h)
  | inr e ↦ rw e (add_all-Distinct (set ++ (slug ∷ [])) slugs (Distinct-append slug set h e))
]

add_all-members :
    (set slugs : List String) (s : String)
    → has_slug s (add_all set slugs) ≡ (has_slug s set || has_slug s slugs)
unfolding add_all
add_all-members set [] s = ground arith
add_all-members set (slug ∷ slugs) s = ground (
  arith,
  add_all-members set slugs s,
  add_all-members (set ++ (slug ∷ [])) slugs s,
  has_slug-append s set (slug ∷ []),
  eq_iff slug s,
)

-- For every list of slugs, the result holds no slug twice, and holds a slug exactly when the list
-- does.
pub deduplicate_badge_slugs-Distinct :
    (slugs : List String)
    → Distinct (deduplicate_badge_slugs slugs)
      × ((s : String) → has_slug s (deduplicate_badge_slugs slugs) ≡ has_slug s slugs)
unfolding deduplicate_badge_slugs
deduplicate_badge_slugs-Distinct slugs =
    (add_all-Distinct [] slugs tt, λ s. add_all-members [] slugs s)
