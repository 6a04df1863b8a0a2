-- ===== src/Sessions/Invariant.antt =====
-- The session, its round rows and its total agree, whatever requests arrive.
use brand_blitz.Prelude.{
  ℕ, ◌≤◌, ◌≡◌, Bool, true, false, ◌&&◌, List, Option, none, some, arith, if◌then◌else◌,
}
use brand_blitz.Scoring.{Choice}
use brand_blitz.Sessions.{
  AbandonReason, Status, completed, GameSession, Slot, score_or_zero, sum_of_rows,
}
use brand_blitz.Sessions.Rows.{
  claim_session, replace_abandoned, insert_session, mark_warmup_started, mark_challenge_started,
  set_round, finish_session, store_session_hmac, abandon_session, abandon_row,
  mark_abandoned_sessions, flag_session, delete_open_session,
}
use brand_blitz.Sessions.Routes.{Result, ok, err, Claim, enforce_one_session}

abbrev pub is_completed : Status → Bool
is_completed completed = true
is_completed _ = false

abbrev pub is_none : Option ℕ → Bool
is_none none = true
is_none (some t) = false

-- Round scores are in range, the session's columns repeat the round rows, and a completed session
-- has ended with the sum of the rows for its total.
pub record Good (s : Slot) (r : GameSession) : Type 0 where
  pub bound_1 : score_or_zero s.row_1 ≤ 150
  pub bound_2 : score_or_zero s.row_2 ≤ 150
  pub bound_3 : score_or_zero s.row_3 ≤ 150
  pub columns_1 : r.round_1.score ≡ score_or_zero s.row_1
  pub columns_2 : r.round_2.score ≡ score_or_zero s.row_2
  pub columns_3 : r.round_3.score ≡ score_or_zero s.row_3
  pub total : r.total_score ≡ (if is_completed r.status then sum_of_rows s else r.total_score)
  pub ended : (is_completed r.status && is_none r.completed_at) ≡ false

abbrev pub GoodOption : Slot → Option GameSession → Type 0
GoodOption s none = Unit
GoodOption s (some r) = Good s r

abbrev pub Inv : Slot → Type 0
Inv s = GoodOption s s.session

abbrev pub OkInv : Result (GameSession × Slot) → Type 0
OkInv (err e) = Unit
OkInv (ok (r, s)) = Inv s × (s.session ≡ some r)

abbrev pub NoneInv : Option Slot → Type 0
NoneInv none = Unit
NoneInv (some s) = Inv s

-- What an open session finishes with is the sum of its rows.
abbrev pub FinishInv : GameSession → Option (GameSession × Slot) → Type 0
FinishInv r none = ⊥
FinishInv r (some (finished, s)) =
    Inv s
    × (s.session ≡ some finished)
    × ((is_none r.completed_at ≡ true) → finished.total_score ≡ sum_of_rows s)

pub new-Good :
    (s : Slot) (user : ℕ) (device : Option ℕ) (practice : Bool) (now : ℕ)
    → Inv (insert_session user device practice now s)
unfolding insert_session
new-Good s user device practice now = ground arith

-- The session of the request is the slot's.
pub enforce-Inv : (c : Claim) (now : ℕ) (s : Slot) → Inv s → OkInv (enforce_one_session c now s)
unfolding enforce_one_session claim_session replace_abandoned
enforce-Inv c now s v = ground (arith, new-Good s c.user c.device c.practice now)

pub mark_warmup_started-Inv : (id now : ℕ) (s : Slot) → Inv s → Inv (mark_warmup_started id now s)
unfolding mark_warmup_started
mark_warmup_started-Inv id now s v = ground arith

pub mark_challenge_started-Inv :
    (id now : ℕ) (s : Slot) → Inv s → Inv (mark_challenge_started id now s)
unfolding mark_challenge_started
mark_challenge_started-Inv id now s v = ground arith

pub store_session_hmac-Inv : (id code : ℕ) (s : Slot) → Inv s → Inv (store_session_hmac id code s)
unfolding store_session_hmac
store_session_hmac-Inv id code s v = ground arith

pub flag_session-Inv :
    (id : ℕ) (reasons : List ℕ) (s : Slot) → Inv s → Inv (flag_session id reasons s)
unfolding flag_session
flag_session-Inv id reasons s v = ground arith

pub abandon_session-Inv :
    (reason : AbandonReason) (now : ℕ) (s : Slot) → Inv s → Inv (abandon_session reason now s).1
unfolding abandon_session abandon_row
abandon_session-Inv reason now s v = ground arith

pub mark_abandoned_sessions-Inv :
    (now : ℕ) (s : Slot) → Inv s → Inv (mark_abandoned_sessions now s).1
unfolding mark_abandoned_sessions abandon_row
mark_abandoned_sessions-Inv now s v = ground arith

pub delete_open_session-Inv : (s : Slot) → Inv s → Inv (delete_open_session s).1
unfolding delete_open_session
delete_open_session-Inv s v = ground arith

pub set_round-Inv :
    (round score : ℕ) (selected : Option Choice) (reaction : ℕ) (r : GameSession) (s : Slot)
    → Good s r
    → score ≤ 150
    → is_none r.completed_at ≡ true
    → NoneInv (
        set_round round score
          (record { answer = selected; score = score; reaction_ms = some reaction })
          r
          s)
unfolding set_round
set_round-Inv round score selected reaction r s v bound pending = ground arith

pub finish_session-Inv :
    (now : ℕ) (s : Slot) (r : GameSession)
    → Good s r
    → s.session ≡ some r
    → FinishInv r (finish_session now s)
unfolding finish_session
finish_session-Inv now s r v at = ground arith
