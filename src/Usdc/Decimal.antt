-- ===== src/Usdc/Decimal.antt =====
-- Decimal texts as JavaScript reads and prints them: `BigInt(text)`, `String(n)`, `padStart` and
-- `padEnd`, which lib/usdc and the payout memo use.
use brand_blitz.Prelude.{
  ℕ, zero, suc, ◌+◌, ◌-◌, ◌*◌, ◌/◌, ◌%◌, ◌^◌, ◌≤◌, ◌<◌, ◌≡◌, refl, inl, inr, true, false, [], ◌∷◌,
  ◌++◌, arith, length, every, replicate, length-append, length-replicate, ltb, if◌then◌else◌,
  Bool-cases,
}
use native.Mathlib.Nat.{pow-suc}
pub use brand_blitz.Texts.{Text, is_digit}

-- A greedy `\d*`, and what it leaves.
unfoldable pub span_digits : Text → Text × Text
span_digits [] = ([], [])
span_digits (c ∷ s) =
    let rest : Text × Text = span_digits s in
    if is_digit c then (c ∷ rest.0, rest.1) else ([], c ∷ s)

big_int_from : ℕ → Text → ℕ
big_int_from acc [] = acc
big_int_from acc (c ∷ s) = big_int_from (acc * 10 + (c - b'0')) s

-- `BigInt(text)` of a text of digits; the empty text is 0.
unfoldable pub big_int : Text → ℕ
unfolding big_int_from
big_int s = big_int_from 0 s

-- The digits of `n`, given at least as much fuel as `n`.
to_string_from : ℕ → ℕ → Text
to_string_from zero n = (b'0' + n % 10) ∷ []
to_string_from (suc f) n =
    let shorter = to_string_from f (n / 10) in
    if ltb n 10 then (b'0' + n % 10) ∷ [] else shorter ++ ((b'0' + n % 10) ∷ [])

unfoldable pub to_string : ℕ → Text
unfolding to_string_from
to_string n = to_string_from n n

abbrev pub pad_end : ℕ → ℕ → Text → Text
pad_end n c s = s ++ replicate (n - length s) c

abbrev pub pad_start : ℕ → ℕ → Text → Text
pad_start n c s = replicate (n - length s) c ++ s

big_int_from-append :
    (acc : ℕ) (s t : Text) → big_int_from acc (s ++ t) ≡ big_int_from (big_int_from acc s) t
unfolding big_int_from
big_int_from-append acc [] t = refl
big_int_from-append acc (c ∷ s) t = big_int_from-append (acc * 10 + (c - b'0')) s t

big_int_from-to_string_from : (f n : ℕ) → n ≤ f → big_int_from 0 (to_string_from f n) ≡ n
unfolding big_int_from to_string_from
big_int_from-to_string_from zero n h = omega arith
big_int_from-to_string_from (suc f) n h = elim (Bool-cases (ltb n 10)) [
  | inl small ↦ ground arith
  | inr big ↦
      let ih = big_int_from-to_string_from f (n / 10) (ground arith) in
      ground (arith, ih, big_int_from-append 0 (to_string_from f (n / 10)) ((b'0' + n % 10) ∷ []))
]

-- Reading what was printed gives the number back.
pub big_int-to_string : (n : ℕ) → big_int (to_string n) ≡ n
unfolding big_int to_string
big_int-to_string n = big_int_from-to_string_from n n (omega arith)

every-append :
    (s t : Text)
    → every is_digit s ≡ true
    → every is_digit t ≡ true
    → every is_digit (s ++ t) ≡ true
every-append [] t h k = k
every-append (c ∷ s) t h k = ground (arith, every-append s t)

to_string_from-digits : (f n : ℕ) → every is_digit (to_string_from f n) ≡ true
unfolding to_string_from
to_string_from-digits zero n = ground arith
to_string_from-digits (suc f) n = ground (
  arith,
  to_string_from-digits f (n / 10),
  every-append (to_string_from f (n / 10)) ((b'0' + n % 10) ∷ []),
)

pub to_string-digits : (n : ℕ) → every is_digit (to_string n) ≡ true
unfolding to_string
to_string-digits n = to_string_from-digits n n

to_string_from-nonempty : (f n : ℕ) → 0 < length (to_string_from f n)
unfolding to_string_from
to_string_from-nonempty zero n = omega arith
to_string_from-nonempty (suc f) n =
    ground (arith, length-append {0} (to_string_from f (n / 10)) ((b'0' + n % 10) ∷ []))

pub to_string-nonempty : (n : ℕ) → 0 < length (to_string n)
unfolding to_string
to_string-nonempty n = to_string_from-nonempty n n

-- A number below 10 ^ k is printed in at most k digits.
to_string_from-length : (f n k : ℕ) → n < 10 ^ suc k → length (to_string_from f n) ≤ suc k
unfolding to_string_from
to_string_from-length zero n k h = omega arith
to_string_from-length (suc f) n zero h = ground (arith)
to_string_from-length (suc f) n (suc k) h = ground (
  arith,
  pow-suc 10 (suc k),
  to_string_from-length f (n / 10) k,
  length-append {0} (to_string_from f (n / 10)) ((b'0' + n % 10) ∷ []),
)

pub length-to_string : (n k : ℕ) → n < 10 ^ suc k → length (to_string n) ≤ suc k
unfolding to_string
length-to_string n k h = to_string_from-length n n k h

big_int_from-zeros : (k : ℕ) (s : Text) → big_int_from 0 (replicate k b'0' ++ s) ≡ big_int_from 0 s
unfolding big_int_from
big_int_from-zeros zero s = refl
big_int_from-zeros (suc k) s = big_int_from-zeros k s

-- Leading zeros do not change the value.
pub big_int-pad_start : (n : ℕ) (s : Text) → big_int (pad_start n b'0' s) ≡ big_int s
unfolding big_int
big_int-pad_start n s = big_int_from-zeros (n - length s) s

zeros-digits : (k : ℕ) → every is_digit (replicate k b'0') ≡ true
zeros-digits zero = refl
zeros-digits (suc k) = zeros-digits k

pub pad_start-digits :
    (n : ℕ) (s : Text) → every is_digit s ≡ true → every is_digit (pad_start n b'0' s) ≡ true
pad_start-digits n s h =
    every-append (replicate (n - length s) b'0') s (zeros-digits (n - length s)) h

pub length-pad_start : (n : ℕ) (s : Text) → length s ≤ n → length (pad_start n b'0' s) ≡ n
length-pad_start n s h = omega (
  arith,
  length-append {0} (replicate (n - length s) b'0') s,
  length-replicate {A = ℕ} (n - length s) b'0',
)

-- The greedy match stops where the digits do.
pub span_digits-append :
    (s : Text) (c : ℕ) (t : Text)
    → every is_digit s ≡ true
    → is_digit c ≡ false
    → span_digits (s ++ (c ∷ t)) ≡ (s, c ∷ t)
unfolding span_digits
span_digits-append [] c t h k = ground arith
span_digits-append (d ∷ s) c t h k = ground (arith, span_digits-append s c t)

pub span_digits-all : (s : Text) → every is_digit s ≡ true → span_digits s ≡ (s, [])
unfolding span_digits
span_digits-all [] h = refl
span_digits-all (c ∷ s) h = ground (arith, span_digits-all s)

pub big_int-no_fraction : big_int (pad_end 7 b'0' []) ≡ 0
unfolding big_int
big_int-no_fraction = refl
