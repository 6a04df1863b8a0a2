-- ===== src/Sessions/Recovery.antt =====
-- routes/sessions of the API: GET /:challengeId, what a reloaded page learns of a session.
use brand_blitz.Prelude.{
  ℕ, ◌+◌, ◌-◌, ◌≤◌, ◌≡◌, min, Bool, true, false, ◌||◌, not, List, [], ◌∷◌, Option, none, some,
  arith, ltb, ◌==◌, if◌then◌else◌,
}
use brand_blitz.Scoring.{Choice}
use brand_blitz.Sessions.{
  AbandonReason, Status, active, abandoned, RoundColumns, GameSession, Slot, is_open,
}
use brand_blitz.Sessions.Rows.{abandon_session, abandon_row}
use brand_blitz.Sessions.Guards.{challenge_not_found, session_not_found, forbidden}
use brand_blitz.Sessions.Routes.{Result, ok, err, Challenge, or_throw, throw_if, ◌>>=◌, ◌>>◌}
use brand_blitz.Sessions.Invariant.{is_none, is_completed}

pub data RecoveryStatus : Type 0 where
  in_warmup in_progress done expired : RecoveryStatus

abbrev pub is_none_choice : Option Choice → Bool
is_none_choice none = true
is_none_choice (some choice) = false

abbrev is_answered : RoundColumns → Bool
is_answered columns = not (is_none_choice columns.answer) || ltb 0 columns.score

unfoldable pub last_answered_round : GameSession → ℕ
last_answered_round r =
    if is_answered r.round_3
    then 3
    else if is_answered r.round_2
    then 2
    else if is_answered r.round_1
    then 1
    else 0

abbrev is_abandoned : Status → Bool
is_abandoned abandoned = true
is_abandoned _ = false

abbrev is_active : Status → Bool
is_active active = true
is_active _ = false

unfoldable pub recovery_status : GameSession → RecoveryStatus
recovery_status r =
    if not (is_none r.completed_at) || is_completed r.status
    then done
    else if is_abandoned r.status
    then expired
    else if not (is_none r.challenge_started_at) || is_active r.status
    then in_progress
    else in_warmup

-- The clock may stand before the start: what then remains is more than the whole time.
unfoldable pub remaining_time_ms : ℕ → GameSession → ℕ
remaining_time_ms now r = elim r.challenge_started_at [
  | none ↦ 45000
  | some started ↦ (45000 + started) - now
]

pub record Recovery : Type 0 where
  pub id : ℕ
  pub status : RecoveryStatus
  pub last_round : ℕ
  pub current_round : ℕ
  pub remaining_ms : ℕ
  pub total_score : ℕ
  pub round_scores : List ℕ

unfoldable pub recover : Option Challenge → ℕ → ℕ → Slot → Result Recovery
unfolding last_answered_round recovery_status remaining_time_ms
recover challenge user now s = do
  _ ← or_throw challenge challenge_not_found
  r ← or_throw s.session session_not_found
  throw_if (not (r.user_id == user)) forbidden
  ok (record {
    id = r.id;
    status = recovery_status r;
    last_round = last_answered_round r;
    current_round = min (last_answered_round r + 1) 3;
    remaining_ms = remaining_time_ms now r;
    total_score =
        if r.total_score == 0
        then r.round_1.score + r.round_2.score + r.round_3.score
        else r.total_score;
    round_scores = r.round_1.score ∷ r.round_2.score ∷ r.round_3.score ∷ [];
  })

-- What the slot's session is reported as, whoever asks.
abbrev pub reported : Slot → Option RecoveryStatus
reported s = elim s.session [ none ↦ none | some r ↦ some (recovery_status r) ]

-- Abandoning an open session for any reason makes the recovery report it as completed.
pub recovery_status-abandon_session :
    (reason : AbandonReason) (now : ℕ) (s : Slot) (r : GameSession)
    → s.session ≡ some r
    → is_open r.status ≡ true
    → reported (abandon_session reason now s).1 ≡ some done
unfolding abandon_session abandon_row recovery_status
recovery_status-abandon_session reason now s r found pending = ground arith

-- What the recovery tells of the scores.
abbrev pub SoundRecovery : Result Recovery → Type 0
SoundRecovery (err e) = Unit
SoundRecovery (ok report) =
    (1 ≤ report.current_round)
    × (report.current_round ≤ 3)
    × (report.last_round ≤ report.current_round)

-- Within its bounds, the round to play is the one after the last answered round, or the last.
pub recover-SoundRecovery :
    (challenge : Option Challenge) (user now : ℕ) (s : Slot)
    → SoundRecovery (recover challenge user now s)
unfolding recover last_answered_round
recover-SoundRecovery challenge user now s = ground arith
