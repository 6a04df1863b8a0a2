-- ===== src/Sessions/Guards.antt =====
-- middleware/anti-cheat of the API: the checks that stand before the session routes, with the fraud
-- flags that they record. Recording is best effort in the source and never changes an answer.
pub mod Lockout
use brand_blitz.Prelude.{
  distance, ℕ, zero, suc, ◌+◌, ◌-◌, ◌*◌, ◌≤◌, ◌<◌, ◌≡◌, ◌≢◌, refl, ◌↔◌, ◌⊎◌, inl, inr, Bool, true,
  false, ◌&&◌, ◌||◌, not, List, [], ◌∷◌, ◌++◌, Option, none, some, arith, length, ltb, leb, ◌==◌,
  if◌then◌else◌, Bool-cases,
}
use brand_blitz.Scoring.{Number, not_finite, negative, natural}

-- What the routes and their guards throw, named by their code or message.
pub data ApiError : Type 0 where
  invalid_timestamp clock_skew : ApiError
  reaction_impossible : ApiError
  missing_device_id fingerprint_collision : ApiError
  session_start_locked : ℕ → ApiError
  invalid_tier : ApiError
  challenge_not_found challenge_not_available session_not_found no_open_session : ApiError
  forbidden : ApiError
  warmup_too_fast : ℕ → ApiError
  warmup_already_completed : ApiError
  invalid_challenge_token session_mismatch : ApiError
  invalid_round challenge_not_started session_already_completed session_flagged : ApiError
  question_not_found conflict_replay round_already_answered : ApiError
  round_score_invalid total_score_invalid : ApiError

pub data Flag : Type 0 where
  invalid_client_timestamp clock_skewed : Flag
  reaction_time_bot_threshold reaction_time_below_minimum reaction_time_above_maximum : Flag
  multi_account_fingerprint : Flag

pub data Verdict : Type 0 where
  pass : List Flag → Verdict
  refuse : ApiError → List Flag → Verdict

abbrev pub bot_reaction_threshold_ms : ℕ
bot_reaction_threshold_ms = 80

abbrev pub max_clock_skew_ms : ℕ
max_clock_skew_ms = 5000

skewed : ℕ → ℕ → Verdict
skewed server_time client_timestamp =
    if ltb max_clock_skew_ms (distance server_time client_timestamp)
    then refuse clock_skew (clock_skewed ∷ [])
    else pass []

abbrev invalid_stamp : Verdict
invalid_stamp = refuse invalid_timestamp (invalid_client_timestamp ∷ [])

unfoldable pub detect_clock_skew : ℕ → Option Number → Verdict
unfolding skewed
detect_clock_skew server_time none = pass []
detect_clock_skew server_time (some not_finite) = invalid_stamp
detect_clock_skew server_time (some (negative n)) = invalid_stamp
detect_clock_skew server_time (some (natural n)) =
    if n == 0 then invalid_stamp else skewed server_time n

pub record Thresholds : Type 0 where
  pub min_human_reaction_ms : ℕ
  pub max_human_reaction_ms : ℕ

abbrev flag_if : Bool → Flag → List Flag
flag_if test flag = if test then flag ∷ [] else []

unfoldable pub validate_reaction_time : Thresholds → Option ℕ → Verdict
validate_reaction_time thresholds none = pass []
validate_reaction_time thresholds (some reaction) =
    if ltb reaction bot_reaction_threshold_ms
    then refuse reaction_impossible (reaction_time_bot_threshold ∷ [])
    else pass (
        flag_if (ltb reaction thresholds.min_human_reaction_ms) reaction_time_below_minimum
        ++ flag_if (ltb thresholds.max_human_reaction_ms reaction) reaction_time_above_maximum)

abbrev pub has_account : ℕ → List ℕ → Bool
has_account user [] = false
has_account user (u ∷ us) = u == user || has_account user us

-- SADD of the user to the accounts that were seen with the fingerprint.
abbrev add_account : ℕ → List ℕ → List ℕ
add_account user accounts = if has_account user accounts then accounts else user ∷ accounts

-- Without a device or visitor header the request is refused; where Redis fails, `none`, it passes.
unfoldable pub validate_device_fingerprint : Bool → ℕ → Option (List ℕ) → Verdict × Option (List ℕ)
validate_device_fingerprint false user accounts = (refuse missing_device_id [], accounts)
validate_device_fingerprint true user none = (pass [], none)
validate_device_fingerprint true user (some accounts) =
    let seen = add_account user accounts in
    if leb 3 (length seen)
    then (refuse fingerprint_collision (multi_account_fingerprint ∷ []), some seen)
    else (pass [], some seen)

pub record LockoutConfig : Type 0 where
  pub threshold : ℕ
  pub window_seconds : ℕ

-- The failure counter: its value, and when its key expires. Times here are in seconds, as Redis counts
-- the life of a key.
pub record Counter : Type 0 where
  pub count : ℕ
  pub expires_at : ℕ

abbrev pub live_count : ℕ → Option Counter → ℕ
live_count now none = 0
live_count now (some c) = if ltb now c.expires_at then c.count else 0

abbrev remaining : LockoutConfig → ℕ → Option Counter → ℕ
remaining cfg now none = cfg.window_seconds
remaining cfg now (some c) = if ltb now c.expires_at then c.expires_at - now else cfg.window_seconds

unfoldable pub require_session_start_allowed : LockoutConfig → ℕ → Option Counter → Verdict
require_session_start_allowed cfg now counter =
    if leb cfg.threshold (live_count now counter)
    then refuse (session_start_locked (remaining cfg now counter)) []
    else pass []

-- What the response's end does to the counter, for a request that passed the check.
unfoldable pub on_finish : LockoutConfig → ℕ → Bool → Option Counter → Option Counter
on_finish cfg now false counter = counter
on_finish cfg now true none = some (record { count = 1; expires_at = now + cfg.window_seconds })
on_finish cfg now true (some c) =
    if ltb now c.expires_at
    then some (record c { count = c.count + 1 })
    else some (record { count = 1; expires_at = now + cfg.window_seconds })

-- The starts of one user, at their times: whether each that passes the check fails afterwards.
unfoldable pub run_starts : LockoutConfig → List (ℕ × Bool) → Option Counter → Option Counter
unfolding require_session_start_allowed on_finish
run_starts cfg [] counter = counter
run_starts cfg ((now, fails) ∷ starts) counter =
    elim (require_session_start_allowed cfg now counter) [
      | pass _ ↦ run_starts cfg starts (on_finish cfg now fails counter)
      | refuse _ _ ↦ run_starts cfg starts counter
    ]
