-- ===== src/Sessions.antt =====
-- Game sessions of the API: db/queries/sessions, routes/sessions and what of middleware/anti-cheat
-- stands before those routes. The table's key is the pair of a user and a challenge, and every
-- operation below is about one such pair, so the model is the part of the database and of Redis
-- that belongs to it.
pub mod Rows
pub mod Routes
pub mod Answers
pub mod Guards
pub mod Invariant
pub mod Requests
pub mod Outcomes
pub mod Warmup
pub mod Recovery
pub mod Timeout
use brand_blitz.Prelude.{ℕ, ◌+◌, Bool, List, [], ◌∷◌, Option, none, some, ◌==◌, if◌then◌else◌}
use brand_blitz.Scoring.{Choice}

pub data Status : Type 0 where
  warmup active completed flagged abandoned : Status

pub data AbandonReason : Type 0 where
  timeout failure explicit : AbandonReason

-- The columns round_n_answer, round_n_score and round_n_reaction_ms.
pub record RoundColumns : Type 0 where
  pub answer : Option Choice
  pub score : ℕ
  pub reaction_ms : Option ℕ

pub record GameSession : Type 0 where
  pub id : ℕ
  pub user_id : ℕ
  pub device_id : Option ℕ
  pub status : Status
  pub warmup_started_at : Option ℕ
  pub warmup_completed_at : Option ℕ
  pub challenge_started_at : Option ℕ
  pub completed_at : Option ℕ
  pub round_1 : RoundColumns
  pub round_2 : RoundColumns
  pub round_3 : RoundColumns
  pub total_score : ℕ
  pub is_flagged : Bool
  pub flag_reasons : List ℕ
  pub is_practice : Bool
  pub integrity_hmac : Option ℕ
  pub abandon_reason : Option AbandonReason
  pub created_at : ℕ

-- The row of game_sessions, its rows of session_round_scores, and the user's totals.
pub record Slot : Type 0 where
  pub session : Option GameSession
  pub row_1 : Option ℕ
  pub row_2 : Option ℕ
  pub row_3 : Option ℕ
  pub user_total_score : ℕ
  pub user_challenges_played : ℕ
  pub next_id : ℕ

abbrev pub score_or_zero : Option ℕ → ℕ
score_or_zero row = elim row [ none ↦ 0 | some score ↦ score ]

-- COALESCE(SUM(score), 0).
abbrev pub sum_of_rows : Slot → ℕ
sum_of_rows s = score_or_zero s.row_1 + score_or_zero s.row_2 + score_or_zero s.row_3

abbrev pub coalesce : Option ℕ → ℕ → Option ℕ
coalesce value now = elim value [ none ↦ some now | some t ↦ some t ]

abbrev pub is_open : Status → Bool
is_open warmup = Bool.true
is_open active = Bool.true
is_open _ = Bool.false
