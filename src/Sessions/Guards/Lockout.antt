-- ===== src/Sessions/Guards/Lockout.antt =====
-- middleware/anti-cheat of the API: when the lockout of session starts holds.
use brand_blitz.Prelude.{
  ℕ, suc, ◌+◌, ◌≤◌, ◌<◌, ◌≡◌, ◌↔◌, Bool, true, false, List, [], ◌∷◌, none, some, arith,
  if◌then◌else◌,
}
use brand_blitz.Sessions.Guards.{
  LockoutConfig, Verdict, pass, refuse, live_count, require_session_start_allowed, run_starts,
}

-- Every start is made from `first` to `last`.
abbrev pub Within : ℕ → ℕ → List (ℕ × Bool) → Type 0
Within first last [] = Unit
Within first last ((now, fails) ∷ starts) = (first ≤ now) × (now ≤ last) × Within first last starts

-- Failed starts do count: the number of those that fail.
abbrev pub failures : List (ℕ × Bool) → ℕ
failures [] = 0
failures ((now, fails) ∷ starts) = (if fails then suc (failures starts) else failures starts)

live_run :
    (cfg : LockoutConfig) (first last expiry count : ℕ) (starts : List (ℕ × Bool))
    → last < expiry
    → Within first last starts
    → cfg.threshold ≤ count + failures starts
    → cfg.threshold
      ≤ live_count last
          (run_starts cfg starts (some (record { count = count; expires_at = expiry })))
unfolding run_starts
live_run cfg first last expiry count [] h _ enough = ground arith
live_run cfg first last expiry count ((now, true) ∷ starts) h (f, k, ks) enough = ground (
  arith,
  live_run cfg first last expiry (count + 1) starts h ks,
  live_run cfg first last expiry count starts h ks,
)
live_run cfg first last expiry count ((now, false) ∷ starts) h (f, k, ks) enough =
    ground (arith, live_run cfg first last expiry count starts h ks)

live_run_upper :
    (cfg : LockoutConfig) (first last expiry count : ℕ) (starts : List (ℕ × Bool))
    → last < expiry
    → Within first last starts
    → live_count last (run_starts cfg starts (some (record { count = count; expires_at = expiry })))
      ≤ count + failures starts
unfolding run_starts
live_run_upper cfg first last expiry count [] h _ = ground arith
live_run_upper cfg first last expiry count ((now, true) ∷ starts) h (f, k, ks) = ground (
  arith,
  live_run_upper cfg first last expiry (count + 1) starts h ks,
  live_run_upper cfg first last expiry count starts h ks,
)
live_run_upper cfg first last expiry count ((now, false) ∷ starts) h (f, k, ks) =
    ground (arith, live_run_upper cfg first last expiry count starts h ks)

-- The count of a user without a counter.
fresh_run :
    (cfg : LockoutConfig) (first last : ℕ) (starts : List (ℕ × Bool))
    → 0 < cfg.threshold
    → last < first + cfg.window_seconds
    → Within first last starts
    → (cfg.threshold ≤ live_count last (run_starts cfg starts none))
      ↔ (cfg.threshold ≤ failures starts)
unfolding run_starts
fresh_run cfg first last [] positive h _ = ground arith
fresh_run cfg first last ((now, true) ∷ starts) positive h (f, k, ks) = grind (
  arith,
  live_run cfg first last (now + cfg.window_seconds) 1 starts (omega arith) ks,
  live_run_upper cfg first last (now + cfg.window_seconds) 1 starts (omega arith) ks,
)
fresh_run cfg first last ((now, false) ∷ starts) positive h (f, k, ks) =
    ground (arith, fresh_run cfg first last starts positive h ks)

abbrev pub is_refused : Verdict → Bool
is_refused (pass flags) = false
is_refused (refuse e flags) = true

-- For a user without a failure counter and starts that all lie within the lockout's window, the next
-- start in that window is refused exactly when the failed starts among them reach the threshold.
pub require_session_start_allowed-run_starts :
    (cfg : LockoutConfig) (first last : ℕ) (starts : List (ℕ × Bool))
    → 0 < cfg.threshold
    → last < first + cfg.window_seconds
    → Within first last starts
    → (is_refused (require_session_start_allowed cfg last (run_starts cfg starts none)) ≡ true)
      ↔ (cfg.threshold ≤ failures starts)
unfolding require_session_start_allowed
require_session_start_allowed-run_starts cfg first last starts positive h within =
    ground (arith, fresh_run cfg first last starts positive h within)
