-- ===== src/Questions/Shuffled.antt =====
-- services/questions of the API: a shuffle keeps what is in a list, and distractors are no answers.
use brand_blitz.Prelude.{
  ℕ, zero, suc, ◌+◌, ◌-◌, ◌%◌, ◌≤◌, ◌<◌, ◌≡◌, refl, ap, ◌∙◌, inl, inr, false, not, List, [], ◌∷◌,
  ◌++◌, some, arith, length, length-append, length-take-le, take, keep, get_elem?, Option-cases,
  if◌then◌else◌,
}
use brand_blitz.Texts.{Text, same_text, times, times-append}
use brand_blitz.Questions.{
  set_at, swap, shuffle_from, shuffle, fallback, pad_with, pick_distractors,
}

abbrev once : Text → Text → ℕ
once x y = if same_text y x then 1 else 0

times-set_at :
    (x : Text) (i : ℕ) (v old : Text) (xs : List Text)
    → get_elem? xs i ≡ some old
    → times x (set_at i v xs) + once x old ≡ times x xs + once x v
times-set_at x i v old [] h = ground (arith, h)
times-set_at x zero v old (y ∷ ys) h = ground (arith, h)
times-set_at x (suc i) v old (y ∷ ys) h = ground (arith, times-set_at x i v old ys h)

get-set_at :
    (i j : ℕ) (x y : Text) (xs : List Text)
    → get_elem? xs i ≡ some x
    → get_elem? xs j ≡ some y
    → get_elem? (set_at i y xs) j ≡ some y
get-set_at i j x y [] h k = ground (arith, h)
get-set_at zero zero x y (z ∷ zs) h k = refl
get-set_at zero (suc j) x y (z ∷ zs) h k = k
get-set_at (suc i) zero x y (z ∷ zs) h k = k
get-set_at (suc i) (suc j) x y (z ∷ zs) h k = get-set_at i j x y zs h k

length-set_at : (i : ℕ) (v : Text) (xs : List Text) → length (set_at i v xs) ≡ length xs
length-set_at i v [] = refl
length-set_at zero v (x ∷ xs) = refl
length-set_at (suc i) v (x ∷ xs) = ap suc (length-set_at i v xs)

swap-keeps :
    (x : Text) (i j : ℕ) (xs : List Text)
    → (times x (swap i j xs) ≡ times x xs) × (length (swap i j xs) ≡ length xs)
unfolding swap
swap-keeps x i j xs = elim (Option-cases (get_elem? xs i)) [
  | inl e ↦ rw (swap, e) (refl, refl)
  | inr (u, e) ↦ elim (Option-cases (get_elem? xs j)) [
    | inl f ↦ rw (swap, e, f) (refl, refl)
    | inr (v, f) ↦
        rw (swap, e, f)
          (
            omega (
              arith,
              times-set_at x i v u xs e,
              times-set_at x j u v (set_at i v xs) (get-set_at i j u v xs e f),
            ),
            length-set_at j u (set_at i v xs) ∙ length-set_at i v xs,
          )
  ]
]

from-keeps :
    (x : Text) (random : ℕ → ℕ) (i : ℕ) (xs : List Text)
    → (times x (shuffle_from random i xs) ≡ times x xs)
      × (length (shuffle_from random i xs) ≡ length xs)
unfolding shuffle_from
from-keeps x random zero xs = (refl, refl)
from-keeps x random (suc i) xs =
    let j = random (suc i) % (suc i + 1) in
    let (t, l) = from-keeps x random i (swap (suc i) j xs) in
    let (t', l') = swap-keeps x (suc i) j xs in (t ∙ t', l ∙ l')

-- A shuffle keeps how often each text is there, whatever the random numbers are.
pub shuffle-keeps :
    (x : Text) (random : ℕ → ℕ) (xs : List Text)
    → (times x (shuffle random xs) ≡ times x xs) × (length (shuffle random xs) ≡ length xs)
unfolding shuffle
shuffle-keeps x random xs = from-keeps x random (length xs - 1) xs

times-take : (x : Text) (n : ℕ) (xs : List Text) → times x (take n xs) ≤ times x xs
times-take x zero xs = omega arith
times-take x (suc n) [] = omega arith
times-take x (suc n) (y ∷ ys) = omega (arith, times-take x n ys)

times-keep : (x : Text) (xs : List Text) → times x (keep (λ y. not (same_text y x)) xs) ≡ 0
times-keep x [] = refl
times-keep x (y ∷ ys) = ground (arith, times-keep x ys)

-- A text that is none of the first three fallbacks.
pub record Plain (x : Text) : Type 0 where
  pub first : same_text (fallback 0) x ≡ false
  pub second : same_text (fallback 1) x ≡ false
  pub third : same_text (fallback 2) x ≡ false

Plain-fallback : (x : Text) (n : ℕ) → Plain x → n < 3 → same_text (fallback n) x ≡ false
Plain-fallback x zero p h = p.first
Plain-fallback x (suc zero) p h = p.second
Plain-fallback x (suc (suc zero)) p h = p.third
Plain-fallback x (suc (suc (suc n))) p h = absurd (omega arith)

pad-keeps :
    (x : Text) (missing : ℕ) (xs : List Text)
    → Plain x
    → length xs + missing ≤ 3
    → (times x (pad_with missing xs) ≡ times x xs)
      × (length (pad_with missing xs) ≡ length xs + missing)
pad-keeps x zero xs p h = (refl, omega arith)
pad-keeps x (suc missing) xs p h =
    let more = xs ++ (fallback (length xs) ∷ []) in
    let size = length-append xs (fallback (length xs) ∷ []) in
    let (t, l) = pad-keeps x missing more p (omega (arith, size)) in
    (
      ground (
        arith,
        t,
        times-append x xs (fallback (length xs) ∷ []),
        Plain-fallback x (length xs) p (omega arith),
      ),
      omega (arith, l, size),
    )

pub pick_keeps :
    (random : ℕ → ℕ) (pool : List Text) (answer : Text)
    → Plain answer
    → (times answer (pick_distractors random pool answer 3) ≡ 0)
      × (length (pick_distractors random pool answer 3) ≡ 3)
unfolding pick_distractors
pick_keeps random pool answer p =
    let others = keep (λ item. not (same_text item answer)) pool in
    let some_ = take 3 (shuffle random others) in
    let size = length-take-le 3 (shuffle random others) in
    let (t, l) = pad-keeps answer (3 - length some_) some_ p (omega (arith, size)) in
    (
      omega (
        arith,
        t,
        times-take answer 3 (shuffle random others),
        (shuffle-keeps answer random others).0,
        times-keep answer pool,
      ),
      omega (arith, l, size),
    )
