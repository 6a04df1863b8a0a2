-- ===== src/Sessions/Outcomes.antt =====
-- routes/sessions of the API: what any requests leave behind, and that a session is counted once.
use brand_blitz.Prelude.{ℕ, ◌+◌, ◌≤◌, ◌≡◌, ◌⊎◌, Bool, true, false, List, Option, none, some, arith}
use brand_blitz.Scoring.{Choice, calculate_round_score}
use brand_blitz.Sessions.{completed, GameSession, Slot}
use brand_blitz.Sessions.Rows.{record_round_score, set_round, finish_session, store_session_hmac}
use brand_blitz.Sessions.Routes.{World, Challenge}
use brand_blitz.Sessions.Answers.{
  AnswerReply, answer, first_answer, finish_round_3, check_answer, replay,
}
use brand_blitz.Sessions.Invariant.{Good, Inv, is_none}
use brand_blitz.Sessions.Requests.{Request, is_late_reply, serve_all, serve_all-Inv, answer-Inv}

no_session : (s : Slot) → s.session ≡ none → Inv s
no_session s h = ground arith

found-Good : (s : Slot) (r : GameSession) → s.session ≡ some r → Inv s → Good s r
found-Good s r h v = ground arith

-- The user's totals are as they were, or the session has ended since and they have grown by its total
-- and by one challenge.
abbrev pub ended_at : Slot → Option ℕ
ended_at s = elim s.session [ none ↦ none | some r ↦ r.completed_at ]

abbrev pub total_of : Slot → ℕ
total_of s = elim s.session [ none ↦ 0 | some r ↦ r.total_score ]

abbrev pub Counted : Slot → Slot → Type 0
Counted s s' =
    (s'.user_total_score ≡ s.user_total_score)
      × (s'.user_challenges_played ≡ s.user_challenges_played)
      × (ended_at s' ≡ ended_at s)
    ⊎ (ended_at s ≡ none)
      × (is_none (ended_at s') ≡ false)
      × (s'.user_total_score ≡ s.user_total_score + total_of s')
      × (s'.user_challenges_played ≡ s.user_challenges_played + 1)

abbrev is_some_session : Slot → Bool
is_some_session s = elim s.session [ none ↦ false | some r ↦ true ]

abbrev Keeps : Slot → Option Slot → Type 0
Keeps s none = Unit
Keeps s (some s') =
    (is_some_session s' ≡ true)
    × (ended_at s' ≡ none)
    × (s'.user_total_score ≡ s.user_total_score)
    × (s'.user_challenges_played ≡ s.user_challenges_played)

module _ (challenge : Option Challenge) (hmac : GameSession → Option ℕ) where
  -- After any requests on a slot without a session, a completed session has ended, its total is the
  -- sum of its three round scores, and each of these is at most 150.
  pub serve_all-total :
      (requests : List (Request × ℕ)) (w : World) (r : GameSession)
      → w.slot.session ≡ none
      → (serve_all challenge hmac requests w).slot.session ≡ some r
      → r.status ≡ completed
      → (is_none r.completed_at ≡ false)
        × (r.total_score ≡ r.round_1.score + r.round_2.score + r.round_3.score)
        × (r.round_1.score ≤ 150)
        × (r.round_2.score ≤ 150)
        × (r.round_3.score ≤ 150)
  serve_all-total requests w r fresh found finished = ground (
    arith,
    found-Good (serve_all challenge hmac requests w).slot r found
        (serve_all-Inv challenge hmac requests w (no_session w.slot fresh)),
  )

  -- After any requests on a slot without a session, the answer route never fails for a round score
  -- or a total score that is out of range.
  pub serve_all-answer :
      (requests : List (Request × ℕ)) (w : World) (user round : ℕ) (selected : Option Choice)
      (reaction now : ℕ)
      → w.slot.session ≡ none
      → is_late_reply
          (answer challenge hmac user round selected reaction now
            (serve_all challenge hmac requests w).slot).0
        ≡ false
  serve_all-answer requests w user round selected reaction now fresh =
      (answer-Inv challenge hmac user round selected reaction now
        (serve_all challenge hmac requests w).slot
        (serve_all-Inv challenge hmac requests w (no_session w.slot fresh))).1

  finish_round_3-Counted :
      (r : GameSession) (reply : AnswerReply) (now : ℕ) (s : Slot)
      → is_some_session s ≡ true
      → ended_at s ≡ none
      → Counted s (finish_round_3 challenge hmac r reply now s).1
  unfolding finish_round_3 finish_session store_session_hmac
  finish_round_3-Counted r reply now s at pending = ground arith

  record_round_score-Keeps :
      (id round score : ℕ) (selected : Option Choice) (reaction : ℕ) (s : Slot)
      → ended_at s ≡ none
      → Keeps s (record_round_score id round score selected reaction s)
  unfolding record_round_score set_round
  record_round_score-Keeps id round score selected reaction s pending = ground arith

  first_answer-Counted :
      (r : GameSession) (round : ℕ) (correct : Choice) (selected : Option Choice) (reaction now : ℕ)
      (s : Slot)
      → ended_at s ≡ none
      → Counted s (first_answer challenge hmac r round correct selected reaction now s).1
  unfolding first_answer
  first_answer-Counted r round correct selected reaction now s pending = grind (
    arith,
    record_round_score-Keeps r.id round (calculate_round_score selected correct reaction) selected
        reaction s pending,
    finish_round_3-Counted,
  )

  -- An answer leaves the user's totals and the session's end as they are, or it ends a session that
  -- had not ended, and adds its total and one challenge.
  pub answer-Counted :
      (user round : ℕ) (selected : Option Choice) (reaction now : ℕ) (s : Slot)
      → Counted s (answer challenge hmac user round selected reaction now s).1
  unfolding answer check_answer replay
  answer-Counted user round selected reaction now s = grind (arith, first_answer-Counted)

  -- An answer to a session that has ended changes nothing, whatever it replies.
  pub answer_after_end :
      (user round : ℕ) (selected : Option Choice) (reaction now : ℕ) (s : Slot)
      → is_none (ended_at s) ≡ false
      → (answer challenge hmac user round selected reaction now s).1 ≡ s
  unfolding answer check_answer replay
  answer_after_end user round selected reaction now s ended = ground arith
