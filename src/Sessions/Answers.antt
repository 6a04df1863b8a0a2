-- ===== src/Sessions/Answers.antt =====
-- routes/sessions of the API: POST /:challengeId/answer/:round, for one user and one challenge. What it
-- starts after a finished session (streaks, badges, caches, notifications) does not touch the session.
use brand_blitz.Prelude.{
  ℕ, Bool, true, false, ◌&&◌, ◌||◌, not, Option, none, some, ◌==◌, if◌then◌else◌,
}
use brand_blitz.Scoring.{
  Choice, calculate_round_score, validate_answer, natural, ScoreCheck, valid, validate_round_score,
  validate_total_score, selects,
}
use brand_blitz.Sessions.{RoundColumns, GameSession, Slot}
use brand_blitz.Sessions.Rows.{record_round_score, finish_session, store_session_hmac}
use brand_blitz.Sessions.Guards.{
  challenge_not_found, session_not_found, forbidden, invalid_round, challenge_not_started,
  session_already_completed, session_flagged, question_not_found, conflict_replay,
  round_already_answered, round_score_invalid, total_score_invalid,
}
use brand_blitz.Sessions.Routes.{
  Result, err, ok, ◌>>=◌, ◌>>◌, throw_if, or_throw, is_some, Challenge,
}

abbrev pub round_of : ℕ → GameSession → RoundColumns
round_of round r = if round == 1 then r.round_1 else if round == 2 then r.round_2 else r.round_3

abbrev pub same_answer : Option Choice → Option Choice → Bool
same_answer none none = true
same_answer none (some y) = false
same_answer (some x) answer = selects answer x

abbrev is_valid : ScoreCheck → Bool
is_valid valid = true
is_valid _ = false

pub record AnswerReply : Type 0 where
  pub correct : Bool
  pub score : ℕ
  pub round : ℕ

-- `hmac` is computeSessionHmac, which gives nothing where no key is configured.
module _ (challenge : Option Challenge) (hmac : GameSession → Option ℕ) where
  -- What follows the recording of round 3; what is written stays written where it throws.
  unfoldable pub finish_round_3 : GameSession → AnswerReply → ℕ → Slot → Result AnswerReply × Slot
  finish_round_3 session reply now s = elim (finish_session now s) [
    | none ↦ (err session_not_found, s)
    | some (finished, s') ↦
        if is_valid (validate_total_score (natural finished.total_score))
        then (
          ok reply,
          elim (hmac finished) [ none ↦ s' | some code ↦ store_session_hmac session.id code s' ],
        )
        else (err total_score_invalid, s')
  ]

  -- The first answer to a round of a session that is not completed.
  unfoldable pub first_answer :
      GameSession → ℕ → Choice → Option Choice → ℕ → ℕ → Slot → Result AnswerReply × Slot
  unfolding finish_round_3
  first_answer session round correct selected reaction now s =
      let score = calculate_round_score selected correct reaction in
      let reply : AnswerReply = record {
        correct = validate_answer correct selected;
        score = score;
        round = round;
      } in
      if is_some (round_of round session).answer
      then (err round_already_answered, s)
      else if is_valid (validate_round_score (natural score))
      then elim (record_round_score session.id round score selected reaction s) [
        | none ↦ (err invalid_round, s)
        | some recorded ↦
            if round == 3 then finish_round_3 session reply now recorded else (ok reply, recorded)
      ]
      else (err round_score_invalid, s)

  -- A repeated answer to round 3 of a completed session.
  unfoldable pub replay : GameSession → Choice → Option Choice → Result AnswerReply
  replay session correct selected = do
    throw_if (not (same_answer session.round_3.answer selected)) conflict_replay
    ok (record {
      correct = validate_answer correct selected;
      score = session.round_3.score;
      round = 3;
    })

  -- The checks before anything is written: the session, and the right option.
  unfoldable pub check_answer : ℕ → ℕ → Slot → Result (GameSession × Choice)
  check_answer user round s = do
    throw_if (not (round == 1 || (round == 2 || round == 3))) invalid_round
    found ← or_throw challenge challenge_not_found
    session ← or_throw s.session session_not_found
    throw_if (not (session.user_id == user)) forbidden
    throw_if (not (is_some session.challenge_started_at)) challenge_not_started
    throw_if (is_some session.completed_at && not (round == 3)) session_already_completed
    throw_if session.is_flagged session_flagged
    correct ← or_throw (found.correct_option round) question_not_found
    ok (session, correct)

  -- POST /:challengeId/answer/:round.
  unfoldable pub answer : ℕ → ℕ → Option Choice → ℕ → ℕ → Slot → Result AnswerReply × Slot
  unfolding first_answer replay check_answer
  answer user round selected reaction now s = elim (check_answer user round s) [
    | err e ↦ (err e, s)
    | ok (session, correct) ↦
        if is_some session.completed_at
        then (replay session correct selected, s)
        else first_answer session round correct selected reaction now s
  ]
