-- ===== src/Sessions/Routes.antt =====
-- routes/sessions of the API: the handlers behind authentication that open, start and give up a session,
-- for one user and one challenge.
use brand_blitz.Prelude.{
  ℕ, ◌+◌, ◌-◌, Bool, true, false, ◌&&◌, not, List, Option, none, some, ltb, ◌==◌, if◌then◌else◌,
}
use brand_blitz.Scoring.{Choice}
use brand_blitz.Sessions.{abandoned, explicit, GameSession, Slot}
use brand_blitz.Sessions.Rows.{
  claim_session, replace_abandoned, mark_warmup_started, mark_warmup_completed,
  mark_challenge_started, abandon_session,
}
use brand_blitz.Sessions.Guards.{
  ApiError, invalid_tier, challenge_not_found, challenge_not_available, session_not_found,
  no_open_session, forbidden, warmup_too_fast, warmup_already_completed, invalid_challenge_token,
  session_mismatch, pass, refuse, validate_device_fingerprint,
}

-- The token `ct:${session.id}:${Date.now()}`.
pub record ChallengeToken : Type 0 where
  pub session_id : ℕ
  pub issued_at : ℕ

abbrev pub same_token : ChallengeToken → ChallengeToken → Bool
same_token s t = s.session_id == t.session_id && s.issued_at == t.issued_at

-- A key of Redis with a life: its value, and when it expires.
pub record Entry : Type 0 where
  pub value : ℕ
  pub expires_at : ℕ

abbrev pub live : ℕ → Option Entry → Option ℕ
live now none = none
live now (some e) = if ltb now e.expires_at then some e.value else none

-- The database's part and the keys warmup:unlock:… by session and challenge-token:… by token.
pub record World : Type 0 where
  pub slot : Slot
  pub unlock : ℕ → Option Entry
  pub token : ChallengeToken → Option Entry

pub record Challenge : Type 0 where
  pub is_active : Bool
  pub correct_option : ℕ → Option Choice

-- What a handler throws, or what it goes on with.
pub data Result {ℓ} (Reply : Type ℓ) : Type ℓ where
  err : ApiError → Result Reply
  ok : Reply → Result Reply

infixl 5 ◌>>◌ ◌>>=◌
abbrev pub ◌>>=◌ {κ ℓ} :
    {From : Type κ} {To : Type ℓ} → Result From → (From → Result To) → Result To
step >>= continue = elim step [ err thrown ↦ err thrown | ok reply ↦ continue reply ]

abbrev pub ◌>>◌ {κ} : {To : Type κ} → Result (Unit {0}) → Result To → Result To
check >> rest = elim check [ err thrown ↦ err thrown | ok _ ↦ rest ]

-- Throws where the test holds.
abbrev pub throw_if : Bool → ApiError → Result (Unit {0})
throw_if true e = err e
throw_if false e = ok tt

abbrev pub or_throw {ℓ} : {A : Type ℓ} → Option A → ApiError → Result A
or_throw none e = err e
or_throw (some a) e = ok a

abbrev pub is_some {ℓ} : {A : Type ℓ} → Option A → Bool
is_some none = false
is_some (some a) = true

abbrev pub warmup_min_ms : ℕ
warmup_min_ms = 20000

abbrev pub put : (ℕ → Option Entry) → ℕ → Option Entry → ℕ → Option Entry
put f k e j = if k == j then e else f j

abbrev pub put_token :
    (ChallengeToken → Option Entry) → ChallengeToken → Option Entry → ChallengeToken → Option Entry
put_token f k e j = if same_token k j then e else f j

abbrev is_available : Option Challenge → Bool
is_available none = false
is_available (some c) = c.is_active

-- What a request brings: the user, the device header, a practice flag, whether a tier that it names is
-- missing, whether it has a visitor or device id, and the accounts that Redis has seen with its
-- fingerprint, which are missing where Redis fails.
pub record Claim : Type 0 where
  pub user : ℕ
  pub device : Option ℕ
  pub practice : Bool
  pub tier_missing : Bool
  pub has_device_id : Bool
  pub accounts : Option (List ℕ)

-- `enforceOneSessionPerChallenge`: the session of the request.
unfoldable pub enforce_one_session : Claim → ℕ → Slot → Result (GameSession × Slot)
enforce_one_session c now s = do
  throw_if c.tier_missing invalid_tier
  let claimed = claim_session c.user c.device c.practice now s
  elim claimed.0 [
    | some session ↦ ok (session, claimed.1)
    | none ↦ elim claimed.1.session [
      | none ↦ err session_not_found
      | some existing ↦ elim existing.status [
        | abandoned ↦
            let replaced = replace_abandoned c.user c.device c.practice now claimed.1 in
            elim replaced.0 [
              | some fresh ↦ ok (fresh, replaced.1)
              | none ↦ elim replaced.1.session [
                | some refetched ↦ ok (refetched, replaced.1)
                | none ↦ err session_not_found
              ]
            ]
        | _ ↦ ok (existing, claimed.1)
      ]
    ]
  ]

module _ (challenge : Option Challenge) where
  -- POST /:challengeId/warmup-start: the session's id and when the warm-up unlocks. The session
  -- is claimed before the fingerprint is checked and the challenge is looked up, and stays where
  -- one of these fails.
  unfoldable pub warmup_start : Claim → ℕ → World → Result (ℕ × ℕ) × World
  unfolding enforce_one_session validate_device_fingerprint
  warmup_start c now w = elim (enforce_one_session c now w.slot) [
    | err e ↦ (err e, w)
    | ok (session, slot) ↦ elim (validate_device_fingerprint c.has_device_id c.user c.accounts).0 [
      | refuse e flags ↦ (err e, record w { slot = slot })
      | pass flags ↦ elim (is_available challenge) [
        | false ↦ (err challenge_not_available, record w { slot = slot })
        | true ↦ (
          ok (session.id, now + warmup_min_ms),
          record w {
            slot = mark_warmup_started session.id now slot;
            unlock =
                put w.unlock session.id
                  (some (record { value = now + warmup_min_ms; expires_at = now + 300000 }));
          },
        )
      ]
    ]
  ]

  -- The check of the unlock time, if its key is still there.
  unfoldable pub check_unlock : Option ℕ → ℕ → Result (Unit {0})
  check_unlock none now = ok tt
  check_unlock (some unlock_at) now =
      throw_if (ltb now unlock_at) (warmup_too_fast (unlock_at - now))

  -- POST /:challengeId/warmup-complete: a challenge token.
  unfoldable pub warmup_complete : ℕ → ℕ → World → Result (ChallengeToken × World)
  unfolding check_unlock
  warmup_complete user now w = do
    _ ← or_throw challenge challenge_not_found
    session ← or_throw w.slot.session session_not_found
    throw_if (not (session.user_id == user)) forbidden
    check_unlock (live now (w.unlock session.id)) now
    marked ← or_throw (mark_warmup_completed session.id now w.slot) warmup_already_completed
    let issued : ChallengeToken = record { session_id = session.id; issued_at = now }
    ok (
      issued,
      record w {
        slot = marked;
        token =
            put_token w.token issued
              (some (record { value = session.id; expires_at = now + 600000 }));
      },
    )

  -- POST /:challengeId/start: the session's id.
  unfoldable pub start : ChallengeToken → ℕ → World → Result (ℕ × World)
  start challenge_token now w = do
    _ ← or_throw challenge challenge_not_found
    stored ← or_throw (live now (w.token challenge_token)) invalid_challenge_token
    session ← or_throw w.slot.session session_mismatch
    throw_if (not (session.id == stored)) session_mismatch
    ok (
      session.id,
      record w {
        slot = mark_challenge_started session.id now w.slot;
        token = put_token w.token challenge_token none;
      },
    )

  -- DELETE /:challengeId.
  unfoldable pub forfeit : ℕ → World → Result World
  forfeit now w = do
    _ ← or_throw challenge challenge_not_found
    throw_if (not (abandon_session explicit now w.slot).0) no_open_session
    ok (record w { slot = (abandon_session explicit now w.slot).1 })
