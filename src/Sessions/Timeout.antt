-- ===== src/Sessions/Timeout.antt =====
-- routes/sessions of the API: POST /:challengeId/answer/:round without a selection, which is what a
-- page sends when the time of a round is over.
use brand_blitz.Prelude.{
  ℕ, ◌≡◌, refl, ap, ◌∙◌, ◌⊎◌, inl, inr, Bool, true, false, ◌||◌, Option, none, some, arith, ◌==◌,
  if◌then◌else◌,
}
use brand_blitz.Scoring.{Choice, calculate_round_score, validate_answer}
use brand_blitz.Scoring.Round.{validate_round_score-calculate}
use brand_blitz.Sessions.{RoundColumns, GameSession, Slot}
use brand_blitz.Sessions.Rows.{record_round_score, set_round}
use brand_blitz.Sessions.Guards.{ApiError, invalid_round}
use brand_blitz.Sessions.Recovery.{is_none_choice}
use brand_blitz.Sessions.Routes.{Result, ok, err, Challenge}
use brand_blitz.Sessions.Answers.{AnswerReply, answer, first_answer, check_answer, replay, round_of}
use brand_blitz.Sessions.Invariant.{is_none}

-- The slot after a timed-out answer that was accepted.
abbrev timed_out : ℕ → ℕ → Slot → Slot
timed_out round reaction s = elim s.session [
  | none ↦ s
  | some r ↦ elim (record_round_score r.id round 0 none reaction s) [ none ↦ s | some s' ↦ s' ]
]

abbrev is_ok {ℓ} : {A : Type ℓ} → Result A → Bool
is_ok (err e) = false
is_ok (ok a) = true

abbrev is_missing {ℓ} : {A : Type ℓ} → Option A → Bool
is_missing none = true
is_missing (some a) = false

Result-cases {ℓ} :
    {A : Type ℓ} (result : Result A)
    → ((a : A) × (result ≡ ok a)) ⊎ ((e : ApiError) × (result ≡ err e))
Result-cases (ok a) = inl (a, refl)
Result-cases (err e) = inr (e, refl)

-- A session that has not ended, with no answer to the round.
abbrev Unanswered : ℕ → Slot → Type 0
Unanswered round s = elim s.session [
  | none ↦ ⊥
  | some r ↦ (is_none r.completed_at ≡ true) × (is_none_choice (round_of round r).answer ≡ true)
]

module _ (challenge : Option Challenge) (hmac : GameSession → Option ℕ) (user round : ℕ)
    (early : (round == 3) ≡ false) where
  abbrev Recorded : Choice → Option Choice → ℕ → Option Slot → Slot → Result AnswerReply × Slot
  Recorded correct selected reaction none s = (err invalid_round, s)
  Recorded correct selected reaction (some s') s = (
    ok (record {
      correct = validate_answer correct selected;
      score = calculate_round_score selected correct reaction;
      round = round;
    }),
    s',
  )

  answer-timed_out :
      (reaction now : ℕ) (s : Slot)
      → ((answer challenge hmac user round none reaction now s).1 ≡ s)
        ⊎ ((answer challenge hmac user round none reaction now s).1 ≡ timed_out round reaction s)
          × Unanswered round s
          × (is_ok (check_answer challenge hmac user round s) ≡ true)
  unfolding answer check_answer replay first_answer calculate_round_score
  answer-timed_out reaction now s = ground arith

  -- The slot that the round's score is recorded in, and the reply to it.
  recorded :
      (correct : Choice) (selected : Option Choice) (reaction' now : ℕ) (s : Slot) (r : GameSession)
      → s.session ≡ some r
      → check_answer challenge hmac user round s ≡ ok (r, correct)
      → Unanswered round s
      → answer challenge hmac user round selected reaction' now s
        ≡ Recorded correct selected reaction'
            (record_round_score r.id round
              (calculate_round_score selected correct reaction')
              selected
              reaction'
              s)
            s
  unfolding answer first_answer
  recorded correct selected reaction' now s r at checked unanswered =
      ground (arith, validate_round_score-calculate selected correct reaction')

  record_again :
      (score reaction reaction' : ℕ) (selected : Option Choice) (s : Slot) (r : GameSession)
      → s.session ≡ some r
      → record_round_score r.id round score selected reaction' (timed_out round reaction s)
        ≡ record_round_score r.id round score selected reaction' s
  unfolding record_round_score set_round
  record_again score reaction reaction' selected s r at = ground arith

  abbrev timed_row : ℕ → GameSession → GameSession
  timed_row reaction r =
      let columns : RoundColumns = record {
        answer = none;
        score = 0;
        reaction_ms = some reaction;
      } in
      if round == 1 then record r { round_1 = columns } else record r { round_2 = columns }

  timed_row_id : (reaction : ℕ) (r : GameSession) → (timed_row reaction r).id ≡ r.id
  timed_row_id reaction r = ground arith

  timed_slot :
      (reaction : ℕ) (s : Slot) (r : GameSession)
      → s.session ≡ some r
      → (round == 1 || round == 2) ≡ true
      → Unanswered round s
      → ((timed_out round reaction s).session ≡ some (timed_row reaction r))
        × Unanswered round (timed_out round reaction s)
  unfolding record_round_score set_round
  timed_slot reaction s r at valid_round unanswered = ground arith

  check_again :
      (correct : Choice) (reaction : ℕ) (s s' : Slot) (r : GameSession)
      → s'.session ≡ some (timed_row reaction r)
      → s.session ≡ some r
      → check_answer challenge hmac user round s ≡ ok (r, correct)
      → check_answer challenge hmac user round s' ≡ ok (timed_row reaction r, correct)
  unfolding check_answer
  check_again correct reaction s s' r at' at checked = ground arith

  record_some :
      (score reaction : ℕ) (selected : Option Choice) (s : Slot) (r : GameSession)
      → s.session ≡ some r
      → (round == 1 || round == 2) ≡ true
      → is_missing (record_round_score r.id round score selected reaction s) ≡ false
  unfolding record_round_score set_round
  record_some score reaction selected s r at valid_round = ground arith

  checked_round :
      (s : Slot) (r : GameSession) (correct : Choice)
      → check_answer challenge hmac user round s ≡ ok (r, correct)
      → ((round == 1 || round == 2) ≡ true) × (s.session ≡ some r)
  unfolding check_answer
  checked_round s r correct checked = ground arith

  answer_after_ok :
      (correct : Choice) (selected : Option Choice) (reaction reaction' now : ℕ) (s : Slot)
      (r : GameSession)
      → Unanswered round s
      → check_answer challenge hmac user round s ≡ ok (r, correct)
      → answer challenge hmac user round selected reaction' now (timed_out round reaction s)
        ≡ answer challenge hmac user round selected reaction' now s
  answer_after_ok correct selected reaction reaction' now s r unanswered checked =
      let found = checked_round s r correct checked in
      let late = timed_out round reaction s in
      let slot = timed_slot reaction s r found.1 found.0 unanswered in
      let score = calculate_round_score selected correct reaction' in
      ground (
        arith,
        recorded correct selected reaction' now s r found.1 checked unanswered,
        recorded correct selected reaction' now late (timed_row reaction r) slot.0
            (check_again correct reaction s late r slot.0 found.1 checked) slot.1,
        record_again score reaction reaction' selected s r found.1,
        record_some score reaction' selected s r found.1 found.0,
        timed_row_id reaction r,
      )

  answer_after :
      (selected : Option Choice) (reaction reaction' now : ℕ) (s : Slot)
      → Unanswered round s
      → is_ok (check_answer challenge hmac user round s) ≡ true
      → answer challenge hmac user round selected reaction' now (timed_out round reaction s)
        ≡ answer challenge hmac user round selected reaction' now s
  answer_after selected reaction reaction' now s unanswered checked =
      elim (Result-cases (check_answer challenge hmac user round s)) [
        | inl (found, same) ↦
            answer_after_ok found.1 selected reaction reaction' now s found.0 unanswered same
        | inr (e, same) ↦ ground arith
      ]

  -- A timed-out answer, one without a selection, to a round that is not 3 leaves no trace: the next
  -- answer to the round has the reply and the effect that it would have had in its place.
  pub answer-answer :
      (selected : Option Choice) (reaction reaction' now now' : ℕ) (s : Slot)
      → answer challenge hmac user round selected reaction' now'
          (answer challenge hmac user round none reaction now s).1
        ≡ answer challenge hmac user round selected reaction' now' s
  answer-answer selected reaction reaction' now now' s = elim (answer-timed_out reaction now s) [
    | inl same ↦ ap (answer challenge hmac user round selected reaction' now') same
    | inr (late, unanswered, checked) ↦
        ap (answer challenge hmac user round selected reaction' now') late
        ∙ answer_after selected reaction reaction' now' s unanswered checked
  ]
