-- ===== src/Tests/Sessions.antt =====
-- A user plays a challenge through the API's session routes.
use brand_blitz.Prelude.{
  ℕ, ◌+◌, ◌≤◌, ◌≡◌, refl, ◌↔◌, Bool, true, false, List, [], ◌∷◌, Option, none, some, arith,
}
use brand_blitz.Scoring.{
  a, speed_bonus, calculate_round_score, validate_round_score, validate_total_score,
}
use brand_blitz.Sessions.{GameSession, Slot}
use brand_blitz.Sessions.Rows.{
  new_session, claim_session, mark_warmup_started, mark_warmup_completed, mark_challenge_started,
  record_round_score, finish_session,
}
use brand_blitz.Sessions.Guards.{LockoutConfig, require_session_start_allowed, run_starts}
use brand_blitz.Sessions.Guards.Lockout.{
  is_refused, failures, require_session_start_allowed-run_starts,
}
use brand_blitz.Sessions.Routes.{World, Challenge, Claim, warmup_start, warmup_complete, start}
use brand_blitz.Sessions.Answers.{answer}
use brand_blitz.Sessions.Invariant.{is_none}
use brand_blitz.Sessions.Requests.{
  Request, to_warmup_start, to_warmup_complete, to_start, to_answer, is_late_reply, serve_all,
}
use brand_blitz.Sessions.Outcomes.{Counted, serve_all-total, serve_all-answer, answer-Counted}
use brand_blitz.Sessions.Warmup.{WarmedUp}
use brand_blitz.Sessions.Warmup.Trace.{serve_all-WarmedUp}

abbrev challenge : Challenge
challenge = record { is_active = true; correct_option = λ round. some a }

abbrev no_hmac : GameSession → Option ℕ
no_hmac session = none

abbrev empty_slot : Slot
empty_slot = record {
  session = none;
  row_1 = none;
  row_2 = none;
  row_3 = none;
  user_total_score = 0;
  user_challenges_played = 0;
  next_id = 1;
}

abbrev empty_world : World
empty_world = record { slot = empty_slot; unlock = λ id. none; token = λ token. none }

abbrev claim : Claim
claim = record {
  user = 7;
  device = none;
  practice = false;
  tier_missing = false;
  has_device_id = true;
  accounts = some [];
}

abbrev started : List (Request × ℕ)
started =
    (to_warmup_start claim, 0)
    ∷ (to_warmup_complete 7, 20000)
    ∷ (to_start (record { session_id = 1; issued_at = 20000 }), 21000)
    ∷ []

abbrev whole_game : List (Request × ℕ)
whole_game =
    (to_warmup_start claim, 0)
    ∷ (to_warmup_complete 7, 20000)
    ∷ (to_start (record { session_id = 1; issued_at = 20000 }), 21000)
    ∷ (to_answer 7 1 (some a) 15000, 22000)
    ∷ (to_answer 7 2 none 15000, 23000)
    ∷ (to_answer 7 3 (some a) 15000, 24000)
    ∷ []

abbrev session_of : Slot → GameSession
session_of s = elim s.session [ none ↦ new_session 0 0 none false 0 | some r ↦ r ]

abbrev slot_after : List (Request × ℕ) → Slot
slot_after requests = (serve_all (some challenge) no_hmac requests empty_world).slot

serve_all-total_example :
    (is_none (session_of (slot_after whole_game)).completed_at ≡ false)
    × ((session_of (slot_after whole_game)).total_score
        ≡ (session_of (slot_after whole_game)).round_1.score
          + (session_of (slot_after whole_game)).round_2.score
          + (session_of (slot_after whole_game)).round_3.score)
    × ((session_of (slot_after whole_game)).round_1.score ≤ 150)
    × ((session_of (slot_after whole_game)).round_2.score ≤ 150)
    × ((session_of (slot_after whole_game)).round_3.score ≤ 150)
unfolding serve_all answer start warmup_complete warmup_start claim_session mark_warmup_started
    mark_warmup_completed mark_challenge_started validate_round_score calculate_round_score
    speed_bonus record_round_score finish_session validate_total_score
serve_all-total_example =
    serve_all-total (some challenge) no_hmac whole_game empty_world
      (session_of (slot_after whole_game)) refl refl refl

serve_all-answer_example :
    is_late_reply (answer (some challenge) no_hmac 7 1 (some a) 15000 22000 (slot_after started)).0
    ≡ false
serve_all-answer_example =
    serve_all-answer (some challenge) no_hmac started empty_world 7 1 (some a) 15000 22000 refl

answer-Counted_example :
    Counted
      (slot_after started)
      (answer (some challenge) no_hmac 7 1 (some a) 15000 22000 (slot_after started)).1
answer-Counted_example =
    answer-Counted (some challenge) no_hmac 7 1 (some a) 15000 22000 (slot_after started)

serve_all-WarmedUp_example :
    WarmedUp
      (session_of (slot_after whole_game)).created_at
      (session_of (slot_after whole_game)).warmup_completed_at
      (session_of (slot_after whole_game)).challenge_started_at
unfolding serve_all answer start warmup_complete warmup_start claim_session mark_warmup_started
    mark_warmup_completed mark_challenge_started validate_round_score calculate_round_score
    speed_bonus record_round_score finish_session validate_total_score
serve_all-WarmedUp_example =
    serve_all-WarmedUp challenge no_hmac refl whole_game empty_world
      (session_of (slot_after whole_game)) refl (λ token. refl) (ground arith) (ground arith) refl

abbrev shared_device : Claim
shared_device = record claim { accounts = some (1 ∷ 2 ∷ []) }

abbrev lockout : LockoutConfig
lockout = record { threshold = 2; window_seconds = 600 }

abbrev failing_starts : List (ℕ × Bool)
failing_starts = (1000, true) ∷ (1100, false) ∷ (1200, true) ∷ []

require_session_start_allowed-run_starts_example :
    (is_refused
        (require_session_start_allowed lockout 1300 (run_starts lockout failing_starts none))
      ≡ true)
    ↔ (lockout.threshold ≤ failures failing_starts)
require_session_start_allowed-run_starts_example =
    require_session_start_allowed-run_starts lockout 1000 1300 failing_starts (ground arith)
      (ground arith) (ground arith)
