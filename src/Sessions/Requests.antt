-- ===== src/Sessions/Requests.antt =====
-- routes/sessions of the API: any sequence of requests on one slot, with the sweep of abandoned
-- sessions and the flags of the fraud checks between them.
use brand_blitz.Prelude.{ℕ, ◌≤◌, ◌≡◌, Bool, true, false, List, [], ◌∷◌, Option, none, some, arith}
use brand_blitz.Scoring.{Choice, calculate_round_score, validate_total_score}
use brand_blitz.Scoring.Round.{calculate_round_score_bounds, validate_round_score-calculate}
use brand_blitz.Sessions.{GameSession, Slot, explicit}
use brand_blitz.Sessions.Rows.{
  mark_warmup_completed, record_round_score, set_round, finish_session, mark_abandoned_sessions,
  flag_session, delete_open_session,
}
use brand_blitz.Sessions.Guards.{ApiError, round_score_invalid, total_score_invalid}
use brand_blitz.Sessions.Routes.{
  World, Result, ok, err, Challenge, Claim, ChallengeToken, warmup_start, warmup_complete,
  check_unlock, start, forfeit,
}
use brand_blitz.Sessions.Answers.{
  AnswerReply, answer, first_answer, finish_round_3, check_answer, replay,
}
use brand_blitz.Sessions.Invariant.{
  Good, Inv, is_none, enforce-Inv, mark_warmup_started-Inv, mark_challenge_started-Inv,
  store_session_hmac-Inv, flag_session-Inv, abandon_session-Inv, mark_abandoned_sessions-Inv,
  delete_open_session-Inv,
}

pub data Request : Type 0 where
  to_warmup_start : Claim → Request
  to_warmup_complete : ℕ → Request
  to_start : ChallengeToken → Request
  to_answer : ℕ → ℕ → Option Choice → ℕ → Request
  to_forfeit : Request
  sweep : Request
  raise_flag : ℕ → List ℕ → Request
  to_restart : Request

-- The world after a request that may throw before it writes.
abbrev pub world_of {ℓ} : {A : Type ℓ} → World → Result (A × World) → World
world_of w (err e) = w
world_of w (ok (a, w')) = w'

abbrev pub world_or : World → Result World → World
world_or w (err e) = w
world_or w (ok w') = w'

-- A session that is there, sound and without an end.
abbrev OpenOption : Slot → Option GameSession → Type 0
OpenOption s none = ⊥
OpenOption s (some r) = Good s r × (is_none r.completed_at ≡ true)

abbrev OpenInv : Slot → Type 0
OpenInv s = OpenOption s s.session

abbrev RecordInv : Option Slot → Type 0
RecordInv none = Unit
RecordInv (some s) = OpenInv s

-- The errors that the answer route throws after it has written, or for a score of its own.
abbrev pub is_late : ApiError → Bool
is_late round_score_invalid = true
is_late total_score_invalid = true
is_late _ = false

abbrev pub is_late_reply {ℓ} : {A : Type ℓ} → Result A → Bool
is_late_reply (ok a) = false
is_late_reply (err e) = is_late e

abbrev pub SoundReply : Result AnswerReply × Slot → Type 0
SoundReply (reply, s) = Inv s × (is_late_reply reply ≡ false)

module _ (challenge : Option Challenge) (hmac : GameSession → Option ℕ) where
  -- The world after a request at a time.
  unfoldable pub serve : Request → ℕ → World → World
  serve (to_warmup_start c) now w = (warmup_start challenge c now w).1
  serve (to_warmup_complete user) now w = world_of w (warmup_complete challenge user now w)
  serve (to_start token) now w = world_of w (start challenge token now w)
  serve (to_answer user round selected reaction) now w = record w {
    slot = (answer challenge hmac user round selected reaction now w.slot).1;
  }
  serve to_forfeit now w = world_or w (forfeit challenge now w)
  serve sweep now w = record w { slot = (mark_abandoned_sessions now w.slot).1 }
  serve (raise_flag id reasons) now w = record w { slot = flag_session id reasons w.slot }
  serve to_restart now w = record w { slot = (delete_open_session w.slot).1 }

  unfoldable pub serve_all : List (Request × ℕ) → World → World
  unfolding serve
  serve_all [] w = w
  serve_all ((request, now) ∷ requests) w = serve_all requests (serve request now w)

  finish_round_3-Inv :
      (r : GameSession) (reply : AnswerReply) (now : ℕ) (s : Slot)
      → OpenInv s
      → SoundReply (finish_round_3 challenge hmac r reply now s)
  unfolding finish_round_3 finish_session validate_total_score
  finish_round_3-Inv r reply now s v = grind (arith, store_session_hmac-Inv)

  warmup_start-Inv :
      (c : Claim) (now : ℕ) (w : World) → Inv w.slot → Inv (warmup_start challenge c now w).1.slot
  unfolding warmup_start
  warmup_start-Inv c now w v = grind (arith, enforce-Inv c now w.slot v, mark_warmup_started-Inv)

  warmup_complete-Inv :
      (user now : ℕ) (w : World)
      → Inv w.slot
      → Inv (world_of w (warmup_complete challenge user now w)).slot
  unfolding warmup_complete check_unlock mark_warmup_completed
  warmup_complete-Inv user now w v = ground arith

  start-Inv :
      (token : ChallengeToken) (now : ℕ) (w : World)
      → Inv w.slot
      → Inv (world_of w (start challenge token now w)).slot
  unfolding start
  start-Inv token now w v = grind (arith, mark_challenge_started-Inv)

  forfeit-Inv : (now : ℕ) (w : World) → Inv w.slot → Inv (world_or w (forfeit challenge now w)).slot
  unfolding forfeit
  forfeit-Inv now w v = ground (arith, abandon_session-Inv explicit now w.slot v)

  record_round_score-Inv :
      (id round score : ℕ) (selected : Option Choice) (reaction : ℕ) (s : Slot)
      → OpenInv s
      → score ≤ 150
      → RecordInv (record_round_score id round score selected reaction s)
  unfolding record_round_score set_round
  record_round_score-Inv id round score selected reaction s v bound = ground arith

  first_answer-Inv :
      (r : GameSession) (round : ℕ) (correct : Choice) (selected : Option Choice) (reaction now : ℕ)
      (s : Slot)
      → OpenInv s
      → SoundReply (first_answer challenge hmac r round correct selected reaction now s)
  unfolding first_answer
  first_answer-Inv r round correct selected reaction now s v = grind (
    arith,
    validate_round_score-calculate selected correct reaction,
    record_round_score-Inv r.id round (calculate_round_score selected correct reaction) selected
        reaction s v (calculate_round_score_bounds selected correct reaction).0,
    finish_round_3-Inv,
  )

  pub answer-Inv :
      (user round : ℕ) (selected : Option Choice) (reaction now : ℕ) (s : Slot)
      → Inv s
      → SoundReply (answer challenge hmac user round selected reaction now s)
  unfolding answer check_answer replay
  answer-Inv user round selected reaction now s v = grind (arith, first_answer-Inv)

  serve-Inv :
      (request : Request) (now : ℕ) (w : World) → Inv w.slot → Inv (serve request now w).slot
  unfolding serve
  serve-Inv (to_warmup_start c) now w v = warmup_start-Inv c now w v
  serve-Inv (to_warmup_complete user) now w v = warmup_complete-Inv user now w v
  serve-Inv (to_start token) now w v = start-Inv token now w v
  serve-Inv (to_answer user round selected reaction) now w v =
      (answer-Inv user round selected reaction now w.slot v).0
  serve-Inv to_forfeit now w v = forfeit-Inv now w v
  serve-Inv sweep now w v = mark_abandoned_sessions-Inv now w.slot v
  serve-Inv (raise_flag id reasons) now w v = flag_session-Inv id reasons w.slot v
  serve-Inv to_restart now w v = delete_open_session-Inv w.slot v

  pub serve_all-Inv :
      (requests : List (Request × ℕ)) (w : World) → Inv w.slot → Inv (serve_all requests w).slot
  unfolding serve_all
  serve_all-Inv [] w v = v
  serve_all-Inv ((request, now) ∷ requests) w v =
      serve_all-Inv requests (serve request now w) (serve-Inv request now w v)
