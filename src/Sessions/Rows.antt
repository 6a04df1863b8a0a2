-- ===== src/Sessions/Rows.antt =====
-- db/queries/sessions of the API: the statements on a session's rows. A row that is looked up by its
-- id is the slot's, if the ids agree.
use brand_blitz.Prelude.{
  ℕ, ◌+◌, Bool, true, false, ◌&&◌, List, [], ◌++◌, Option, none, some, ltb, ◌==◌, if◌then◌else◌,
}
use brand_blitz.Scoring.{Choice}
use brand_blitz.Sessions.{
  warmup, active, completed, flagged, abandoned, AbandonReason, timeout, RoundColumns, GameSession,
  Slot, sum_of_rows, coalesce, is_open,
}

abbrev empty_round : RoundColumns
empty_round = record { answer = none; score = 0; reaction_ms = none }

-- The column defaults of a new row.
unfoldable pub new_session : ℕ → ℕ → Option ℕ → Bool → ℕ → GameSession
new_session id user device practice now = record {
  id = id;
  user_id = user;
  device_id = device;
  status = warmup;
  warmup_started_at = none;
  warmup_completed_at = none;
  challenge_started_at = none;
  completed_at = none;
  round_1 = empty_round;
  round_2 = empty_round;
  round_3 = empty_round;
  total_score = 0;
  is_flagged = false;
  flag_reasons = [];
  is_practice = practice;
  integrity_hmac = none;
  abandon_reason = none;
  created_at = now;
}

-- A new row has no round scores: those of a deleted row go with it (ON DELETE CASCADE).
unfoldable pub insert_session : ℕ → Option ℕ → Bool → ℕ → Slot → Slot
unfolding new_session
insert_session user device practice now s = record s {
  session = some (new_session s.next_id user device practice now);
  row_1 = none;
  row_2 = none;
  row_3 = none;
  next_id = s.next_id + 1;
}

-- ON CONFLICT DO NOTHING: none where a session is there.
unfoldable pub claim_session : ℕ → Option ℕ → Bool → ℕ → Slot → Option GameSession × Slot
unfolding insert_session
claim_session user device practice now s = elim s.session [
  | none ↦ (
    some (new_session s.next_id user device practice now),
    insert_session user device practice now s,
  )
  | some _ ↦ (none, s)
]

-- UPDATE … WHERE id = $1.
abbrev pub update_by_id : ℕ → (GameSession → GameSession) → Slot → Slot
update_by_id id f s = elim s.session [
  | none ↦ s
  | some r ↦ record s { session = some (if r.id == id then f r else r) }
]

unfoldable pub mark_warmup_started : ℕ → ℕ → Slot → Slot
mark_warmup_started id now =
    update_by_id id (λ r. record r { warmup_started_at = coalesce r.warmup_started_at now })

-- `none` is the error that the source throws when no row was updated.
unfoldable pub mark_warmup_completed : ℕ → ℕ → Slot → Option Slot
mark_warmup_completed id now s = elim s.session [
  | none ↦ none
  | some r ↦ elim r.warmup_completed_at [
    | some _ ↦ none
    | none ↦
        if r.id == id
        then some (record s { session = some (record r { warmup_completed_at = some now }) })
        else none
  ]
]

unfoldable pub mark_challenge_started : ℕ → ℕ → Slot → Slot
mark_challenge_started id now =
    update_by_id id (λ r. record r {
      challenge_started_at = coalesce r.challenge_started_at now;
      status = active;
    })

unfoldable pub set_round : ℕ → ℕ → RoundColumns → GameSession → Slot → Option Slot
set_round round score columns r s =
    if round == 1
    then some (record s { session = some (record r { round_1 = columns }); row_1 = some score })
    else if round == 2
    then some (record s { session = some (record r { round_2 = columns }); row_2 = some score })
    else if round == 3
    then some (record s { session = some (record r { round_3 = columns }); row_3 = some score })
    else none

-- The upsert of the round's row and the update of the round's columns. Other rounds are refused, and
-- so is a session that is not there, by the foreign key.
unfoldable pub record_round_score : ℕ → ℕ → ℕ → Option Choice → ℕ → Slot → Option Slot
unfolding set_round
record_round_score id round score answer reaction s = elim s.session [
  | none ↦ none
  | some r ↦
      if r.id == id
      then set_round round score
          (record { answer = answer; score = score; reaction_ms = some reaction }) r s
      else none
]

-- A session that is completed already is returned as it is.
unfoldable pub finish_session : ℕ → Slot → Option (GameSession × Slot)
finish_session now s = elim s.session [
  | none ↦ none
  | some r ↦ elim r.completed_at [
    | some _ ↦ some (r, s)
    | none ↦
        let finished : GameSession = record r {
          completed_at = some now;
          status = completed;
          total_score = sum_of_rows s;
        } in
        some (
          finished,
          record s {
            session = some finished;
            user_total_score = s.user_total_score + sum_of_rows s;
            user_challenges_played = s.user_challenges_played + 1;
          },
        )
  ]
]

unfoldable pub store_session_hmac : ℕ → ℕ → Slot → Slot
store_session_hmac id hmac = update_by_id id (λ r. record r { integrity_hmac = some hmac })

unfoldable pub flag_session : ℕ → List ℕ → Slot → Slot
flag_session id reasons = update_by_id id (λ r. record r {
  is_flagged = true;
  status = flagged;
  flag_reasons = r.flag_reasons ++ reasons;
})

unfoldable pub abandon_row : AbandonReason → ℕ → GameSession → GameSession
abandon_row reason now r = record r {
  status = abandoned;
  abandon_reason = some reason;
  completed_at = coalesce r.completed_at now;
}

unfoldable pub abandon_session : AbandonReason → ℕ → Slot → Bool × Slot
unfolding abandon_row
abandon_session reason now s = elim s.session [
  | none ↦ (false, s)
  | some r ↦
      if is_open r.status
      then (true, record s { session = some (abandon_row reason now r) })
      else (false, s)
]

abbrev two_hours : ℕ
two_hours = 7200000

-- COALESCE(challenge_started_at, warmup_started_at, created_at).
abbrev last_activity : GameSession → ℕ
last_activity r = elim r.challenge_started_at [
  | some t ↦ t
  | none ↦ elim r.warmup_started_at [ some t ↦ t | none ↦ r.created_at ]
]

unfoldable pub mark_abandoned_sessions : ℕ → Slot → ℕ × Slot
unfolding abandon_row
mark_abandoned_sessions now s = elim s.session [
  | none ↦ (0, s)
  | some r ↦
      if is_open r.status && ltb (last_activity r + two_hours) now
      then (1, record s { session = some (abandon_row timeout now r) })
      else (0, s)
]

unfoldable pub delete_open_session : Slot → Bool × Slot
delete_open_session s = elim s.session [
  | none ↦ (false, s)
  | some r ↦ elim r.status [
    | completed ↦ (false, s)
    | flagged ↦ (false, s)
    | _ ↦ (true, record s { session = none; row_1 = none; row_2 = none; row_3 = none })
  ]
]

-- The deletion of an abandoned session and the insertion of a fresh one, in one statement.
unfoldable pub replace_abandoned : ℕ → Option ℕ → Bool → ℕ → Slot → Option GameSession × Slot
unfolding insert_session
replace_abandoned user device practice now s = elim s.session [
  | none ↦ (none, s)
  | some r ↦ elim r.status [
    | abandoned ↦ (
      some (new_session s.next_id user device practice now),
      insert_session user device practice now s,
    )
    | _ ↦ (none, s)
  ]
]
