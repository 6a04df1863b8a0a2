-- ===== src/Stellar/Retry.antt =====
-- packages/stellar/src/client.ts: `withRetry` and the errors that it retries. The calls of `fn` are
-- its replies by attempt; waiting between attempts is left out.
use brand_blitz.Prelude.{
  ℕ, zero, suc, ◌+◌, ◌≤◌, ◌<◌, ◌≡◌, refl, ◌⊎◌, inl, inr, Bool, true, false, ◌&&◌, ◌||◌, not, List,
  [], ◌∷◌, Option, none, some, arith, ltb, ◌==◌, Bool-cases,
}
use brand_blitz.Texts.{Text, codes, includes}

-- An error with its HTTP status, if any, and its message in lower case.
pub record Failure : Type 0 where
  pub status : Option ℕ
  pub message : Text
  pub retry_exhausted : Bool

pub data Reply {ℓ} (A : Type ℓ) : Type ℓ where
  returned : A → Reply A
  raised : Failure → Reply A

abbrev has_status : ℕ → List ℕ → Bool
has_status s [] = false
has_status s (c ∷ cs) = s == c || has_status s cs

status_retryable : List ℕ → Option ℕ → Bool
status_retryable retryable none = false
status_retryable retryable (some s) = not (s == 0) && has_status s retryable

-- The status is one of the listed ones, or the message names a network failure.
unfoldable pub is_retryable_error : List ℕ → Failure → Bool
unfolding status_retryable
is_retryable_error retryable_status_codes err =
    status_retryable retryable_status_codes err.status
    || (includes (codes "econnrefused") err.message
        || (includes (codes "econnreset") err.message
            || (includes (codes "enotfound") err.message
                || (includes (codes "timeout") err.message
                    || (includes (codes "timed out") err.message
                        || includes (codes "networkconnection") err.message)))))

module _ {ℓ} {A : Type ℓ} (retryable_status_codes : List ℕ) (fn : ℕ → Reply A) where
  -- The loop from `attempt` on, `left` attempts before the last: the result and the calls made.
  retry_from : ℕ → ℕ → Reply A × ℕ
  retry_from zero attempt = elim (fn attempt) [
    | returned a ↦ (returned a, attempt + 1)
    | raised err ↦ (raised (record err { retry_exhausted = true }), attempt + 1)
  ]
  retry_from (suc left) attempt = elim (fn attempt) [
    | returned a ↦ (returned a, attempt + 1)
    | raised err ↦ elim (is_retryable_error retryable_status_codes err) [
      | false ↦ (raised err, attempt + 1)
      | true ↦ retry_from left (attempt + 1)
    ]
  ]

  -- `maxAttempts` is `suc more`; with none the source has no error to throw.
  unfoldable pub with_retry : ℕ → Reply A × ℕ
  unfolding retry_from
  with_retry more = retry_from more 0

  -- All attempts below `k` failed with errors that are retried.
  abbrev pub Retried : ℕ → Type ℓ
  Retried k =
      (i : ℕ)
      → i < k
      → (err : Failure) × (fn i ≡ raised err)
        × (is_retryable_error retryable_status_codes err ≡ true)

  -- How the loop can end: by a success, by an error that is not retried, or by the last attempt.
  abbrev pub Ends : ℕ → Reply A × ℕ → Type ℓ
  Ends more out =
      (k : ℕ) × (k ≤ more)
      × Retried k
      × (out.1 ≡ k + 1)
      × (((a : A) × (fn k ≡ returned a) × (out.0 ≡ returned a))
          ⊎ ((err : Failure) × (fn k ≡ raised err)
              × (((is_retryable_error retryable_status_codes err ≡ false)
                    × (k < more)
                    × (out.0 ≡ raised err))
                  ⊎ ((k ≡ more) × (out.0 ≡ raised (record err { retry_exhausted = true }))))))

  Retried-suc :
      (k : ℕ) (err : Failure)
      → Retried k
      → fn k ≡ raised err
      → is_retryable_error retryable_status_codes err ≡ true
      → Retried (k + 1)
  Retried-suc k err before h r i lt = elim (Bool-cases (ltb i k)) [
    | inl e ↦ before i (ground arith)
    | inr e ↦ let same : i ≡ k = ground arith in (err, rw same h, r)
  ]

  retry_from-Ends :
      (more left attempt : ℕ)
      → attempt + left ≡ more
      → Retried attempt
      → (reply : Reply A) → fn attempt ≡ reply
      → Ends more (retry_from left attempt)
  unfolding retry_from
  retry_from-Ends more zero attempt h before (returned a) e =
      rw (e, retry_from) (attempt, omega arith, before, refl, inl (a, e, refl))
  retry_from-Ends more zero attempt h before (raised err) e =
      rw (e, retry_from) (attempt, omega arith, before, refl, inr (err, e, inr (omega arith, refl)))
  retry_from-Ends more (suc left) attempt h before (returned a) e =
      rw (e, retry_from) (attempt, omega arith, before, refl, inl (a, e, refl))
  retry_from-Ends more (suc left) attempt h before (raised err) e =
      elim (Bool-cases (is_retryable_error retryable_status_codes err)) [
        | inl r ↦
            rw (e, retry_from, r)
              (retry_from-Ends more left (attempt + 1) (omega arith)
                (Retried-suc attempt err before e r) (fn (attempt + 1)) refl)
        | inr r ↦
            rw (e, retry_from, r)
              (attempt, omega arith, before, refl, inr (err, e, inl (r, omega arith, refl)))
      ]

  -- For every sequence of replies and every limit of `more` + 1 attempts, the loop ends after at
  -- most that many calls, and stops at the first success, which it returns, at the first error that
  -- is not retried, which it raises as it is, or at the last attempt, whose error it marks as
  -- exhausted; all calls before failed with errors that are retried.
  pub with_retry-Ends : (more : ℕ) → Ends more (with_retry more)
  unfolding with_retry
  with_retry-Ends more =
      retry_from-Ends more more 0 (omega arith) (λ i lt. absurd (omega arith)) (fn 0) refl
