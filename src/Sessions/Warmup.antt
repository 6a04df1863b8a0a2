-- ===== src/Sessions/Warmup.antt =====
-- routes/sessions of the API: the warm-up. For an active challenge, the time that the server imposes
-- between the creation of a session and its start.
pub mod Trace
pub mod Refused
use brand_blitz.Prelude.{
  ℕ, ◌+◌, ◌*◌, ◌≤◌, ◌<◌, ◌≡◌, ◌≢◌, refl, ◌⊎◌, inl, inr, Bool, true, false, ◌&&◌, ◌||◌, not, List,
  [], ◌∷◌, Option, none, some, arith, ltb, leb, ◌==◌, if◌then◌else◌, Bool-cases, Option-cases,
}
use brand_blitz.Scoring.{Choice, calculate_round_score}
use brand_blitz.Sessions.{
  AbandonReason, explicit, Status, abandoned, RoundColumns, GameSession, Slot,
}
use brand_blitz.Sessions.Rows.{
  new_session, claim_session, replace_abandoned, insert_session, mark_warmup_started,
  mark_warmup_completed, mark_challenge_started, record_round_score, set_round, finish_session,
  store_session_hmac, abandon_session, abandon_row, mark_abandoned_sessions, flag_session,
  delete_open_session,
}
use brand_blitz.Sessions.Routes.{
  World, Entry, Result, ok, err, Challenge, Claim, ChallengeToken, same_token, enforce_one_session,
  warmup_start, warmup_complete, check_unlock, start, forfeit, warmup_min_ms, put, put_token, live,
}
use brand_blitz.Sessions.Answers.{
  AnswerReply, answer, first_answer, finish_round_3, check_answer, replay,
}
use brand_blitz.Sessions.Requests.{
  Request, to_warmup_start, to_warmup_complete, to_start, to_answer, to_forfeit, sweep, raise_flag,
  to_restart, world_of, world_or, serve, serve_all,
}

-- What the warm-up reads and writes of a session.
record Stamps : Type 0 where
  id : ℕ
  created : ℕ
  warm : Option ℕ
  started : Option ℕ

abbrev stamps_of : GameSession → Stamps
stamps_of r = record {
  id = r.id;
  created = r.created_at;
  warm = r.warmup_completed_at;
  started = r.challenge_started_at;
}

abbrev stamps : Slot → Option Stamps
stamps s = elim s.session [ none ↦ none | some r ↦ some (stamps_of r) ]

-- The session starts after the end of its warm-up, which ends 20 s after its creation or later.
abbrev pub WarmedUp : ℕ → Option ℕ → Option ℕ → Type 0
WarmedUp created warm none = Unit
WarmedUp created none (some t) = ⊥
WarmedUp created (some u) (some t) = (created + 20000 ≤ u) × (u ≤ t)

abbrev WarmBy : ℕ → ℕ → Option ℕ → Type 0
WarmBy now created none = Unit
WarmBy now created (some u) = (created + 20000 ≤ u) × (u ≤ now)

-- The unlock time is kept, or it is past.
abbrev Locked : ℕ → ℕ → Option Entry → Type 0
Locked now created none = created + 20000 ≤ now
Locked now created (some e) =
    (created + 20000 ≤ now) ⊎ (created + 20000 ≤ e.value) × (e.value ≤ e.expires_at)

abbrev is_warm : Option ℕ → Bool
is_warm none = false
is_warm (some u) = true

record Timed (now next : ℕ) (unlock : ℕ → Option Entry) (tokens : ChallengeToken → Option Entry)
    (s : Stamps) : Type 0 where
  fresh : s.id < next
  born : s.created ≤ now
  order : WarmedUp s.created s.warm s.started
  warm : WarmBy now s.created s.warm
  locked : Locked now s.created (unlock s.id)
  issued :
      (token : ChallengeToken) (e : Entry)
      → tokens token ≡ some e
      → e.value ≡ s.id
      → is_warm s.warm ≡ true

abbrev TimedOption :
    ℕ → ℕ → (ℕ → Option Entry) → (ChallengeToken → Option Entry) → Option Stamps → Type 0
TimedOption now next unlock tokens none = Unit
TimedOption now next unlock tokens (some s) = Timed now next unlock tokens s

record Times (now : ℕ) (w : World) : Type 0 where
  session : TimedOption now w.slot.next_id w.unlock w.token (stamps w.slot)
  tokens : (token : ChallengeToken) (e : Entry) → w.token token ≡ some e → e.value < w.slot.next_id

-- The operations that do not touch the stamps.
abbrev Same : Slot → Slot → Type 0
Same s s' = (stamps s' ≡ stamps s) × (s'.next_id ≡ s.next_id)

mark_warmup_started-Same : (id now : ℕ) (s : Slot) → Same s (mark_warmup_started id now s)
unfolding mark_warmup_started
mark_warmup_started-Same id now s = ground arith

flag_session-Same : (id : ℕ) (reasons : List ℕ) (s : Slot) → Same s (flag_session id reasons s)
unfolding flag_session
flag_session-Same id reasons s = ground arith

abandon_session-Same :
    (reason : AbandonReason) (now : ℕ) (s : Slot) → Same s (abandon_session reason now s).1
unfolding abandon_session abandon_row
abandon_session-Same reason now s = ground arith

mark_abandoned_sessions-Same : (now : ℕ) (s : Slot) → Same s (mark_abandoned_sessions now s).1
unfolding mark_abandoned_sessions abandon_row
mark_abandoned_sessions-Same now s = ground arith

abbrev SameOption : Slot → Option Slot → Type 0
SameOption s none = Unit
SameOption s (some s') = Same s s'

record_round_score-Same :
    (id round score : ℕ) (selected : Option Choice) (reaction : ℕ) (s : Slot)
    → SameOption s (record_round_score id round score selected reaction s)
unfolding record_round_score set_round
record_round_score-Same id round score selected reaction s = ground arith

module _ (challenge : Option Challenge) (hmac : GameSession → Option ℕ) where
  finish_round_3-Same :
      (r : GameSession) (reply : AnswerReply) (now : ℕ) (s : Slot)
      → Same s (finish_round_3 challenge hmac r reply now s).1
  unfolding finish_round_3 finish_session store_session_hmac
  finish_round_3-Same r reply now s = ground arith

  first_answer-Same :
      (r : GameSession) (round : ℕ) (correct : Choice) (selected : Option Choice) (reaction now : ℕ)
      (s : Slot)
      → Same s (first_answer challenge hmac r round correct selected reaction now s).1
  unfolding first_answer
  first_answer-Same r round correct selected reaction now s = grind (
    arith,
    record_round_score-Same r.id round (calculate_round_score selected correct reaction) selected
        reaction s,
    finish_round_3-Same,
  )

  answer-Same :
      (user round : ℕ) (selected : Option Choice) (reaction now : ℕ) (s : Slot)
      → Same s (answer challenge hmac user round selected reaction now s).1
  unfolding answer check_answer replay
  answer-Same user round selected reaction now s = grind (arith, first_answer-Same)
