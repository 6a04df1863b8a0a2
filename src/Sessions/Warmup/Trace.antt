-- ===== src/Sessions/Warmup/Trace.antt =====
-- routes/sessions of the API: any sequence of requests keeps the times of the warm-up in order.
use brand_blitz.Prelude.{
  ℕ, ◌+◌, ◌≤◌, ◌≡◌, ◌⊎◌, inl, inr, Bool, true, false, List, [], ◌∷◌, Option, none, some, arith, All,
}
use brand_blitz.Sessions.Guards.{pass, refuse, validate_device_fingerprint}
use brand_blitz.Sessions.{explicit, GameSession, Slot}
use brand_blitz.Sessions.Rows.{
  new_session, claim_session, replace_abandoned, insert_session, mark_warmup_completed,
  mark_challenge_started, mark_abandoned_sessions, flag_session, delete_open_session,
}
use brand_blitz.Sessions.Routes.{
  World, Entry, Result, ok, err, Challenge, Claim, ChallengeToken, same_token, enforce_one_session,
  warmup_start, warmup_complete, check_unlock, start, forfeit, warmup_min_ms, put,
}
use brand_blitz.Sessions.Answers.{answer}
use brand_blitz.Sessions.Requests.{
  Request, to_warmup_start, to_warmup_complete, to_start, to_answer, to_forfeit, sweep, raise_flag,
  to_restart, world_of, world_or, serve, serve_all,
}
use brand_blitz.Sessions.Warmup.{
  Stamps, WarmedUp, Timed, Times, Same, mark_warmup_started-Same, flag_session-Same,
  abandon_session-Same, mark_abandoned_sessions-Same, answer-Same,
}

Timed-later :
    (now later next : ℕ) (unlock : ℕ → Option Entry) (tokens : ChallengeToken → Option Entry)
    (s : Stamps)
    → now ≤ later
    → Timed now next unlock tokens s
    → Timed later next unlock tokens s
Timed-later now later next unlock tokens s h t = record {
  fresh = t.fresh;
  born = ground arith;
  order = t.order;
  warm = ground arith;
  locked = ground arith;
  issued = t.issued;
}

Times-later : (now later : ℕ) (w : World) → now ≤ later → Times now w → Times later w
Times-later now later w h t = record {
  session = grind (arith, Timed-later, t.session);
  tokens = t.tokens;
}

Same-Times :
    (now : ℕ) (w : World) (s : Slot)
    → Same w.slot s
    → Times now w
    → Times now (record w { slot = s })
Same-Times now w s (same, next) t = record {
  session = rw (same, next) t.session;
  tokens = rw next t.tokens;
}

-- A fresh session, with the next id.
insert-Times :
    (now : ℕ) (w : World) (user : ℕ) (device : Option ℕ) (practice : Bool)
    → Times now w
    → Times now (record w {
      slot = insert_session user device practice now w.slot;
      unlock =
          put w.unlock w.slot.next_id
            (some (record { value = now + warmup_min_ms; expires_at = now + 300000 }));
    })
unfolding insert_session new_session
insert-Times now w user device practice t = record {
  session = record {
    fresh = ground arith;
    born = ground arith;
    order = tt;
    warm = tt;
    locked = ground arith;
    issued = λ token e at is. grind (arith, t.tokens token e at);
  };
  tokens = λ token e at. grind (arith, t.tokens token e at);
}

delete-Times :
    (now : ℕ) (w : World)
    → Times now w
    → Times now (record w { slot = (delete_open_session w.slot).1 })
unfolding delete_open_session
delete-Times now w t = record {
  session = grind (arith, t.session);
  tokens = grind (arith, t.tokens);
}

same_token-eq : (x y : ChallengeToken) → same_token x y ≡ true → x ≡ y
same_token-eq x y h = ground arith

-- Whatever the slot's new state is: a session of it, and the next id.
warmup_complete-Times :
    (challenge : Option Challenge) (user now : ℕ) (w : World)
    → Times now w
    → Times now (world_of w (warmup_complete challenge user now w))
unfolding warmup_complete check_unlock mark_warmup_completed
warmup_complete-Times challenge user now w t = record {
  session = grind (arith, t.session);
  tokens = λ token e at. grind (arith, t.tokens, t.session);
}

start-Times :
    (challenge : Option Challenge) (token : ChallengeToken) (now : ℕ) (w : World)
    → Times now w
    → Times now (world_of w (start challenge token now w))
unfolding start mark_challenge_started
start-Times challenge token now w t = record {
  session = grind (arith, t.session, t.tokens);
  tokens = λ token e at. grind (arith, t.tokens);
}

-- The session that is there, with a later unlock time.
relock-Times :
    (now : ℕ) (w : World) (r : GameSession)
    → w.slot.session ≡ some r
    → Times now w
    → Times now (record w {
      unlock =
          put w.unlock r.id
            (some (record { value = now + warmup_min_ms; expires_at = now + 300000 }));
    })
relock-Times now w r at t = record { session = ground (arith, t.session); tokens = t.tokens }

-- With its unlock time, the session of a request is in order.
abbrev ClaimTimes : ℕ → World → Result (GameSession × Slot) → Type 0
ClaimTimes now w (err e) = Unit
ClaimTimes now w (ok (r, s)) = Times now (record w {
  slot = s;
  unlock =
      put w.unlock r.id (some (record { value = now + warmup_min_ms; expires_at = now + 300000 }));
})

-- The session of a request is the one that is there, or a fresh one.
abbrev Claimed : Claim → ℕ → Slot → Result (GameSession × Slot) → Type 0
Claimed c now s (err e) = Unit
Claimed c now s (ok (r, s')) =
    (s' ≡ s) × (s.session ≡ some r)
    ⊎ (s' ≡ insert_session c.user c.device c.practice now s)
      × (r ≡ new_session s.next_id c.user c.device c.practice now)

enforce-Claimed : (c : Claim) (now : ℕ) (s : Slot) → Claimed c now s (enforce_one_session c now s)
unfolding enforce_one_session claim_session replace_abandoned
enforce-Claimed c now s = ground arith

Claimed-Times :
    (c : Claim) (now : ℕ) (w : World) (result : Result (GameSession × Slot))
    → Times now w
    → Claimed c now w.slot result
    → ClaimTimes now w result
unfolding new_session
Claimed-Times c now w (err e) t h = tt
Claimed-Times c now w (ok (r, s)) t (inl (same, found)) = rw same (relock-Times now w r found t)
Claimed-Times c now w (ok (r, s)) t (inr (inserted, fresh)) =
    rw (inserted, fresh) (insert-Times now w c.user c.device c.practice t)

-- Whether the check of the fingerprint lets the request pass.
abbrev pub passes_device : Claim → Bool
passes_device c = elim (validate_device_fingerprint c.has_device_id c.user c.accounts).0 [
  | refuse e flags ↦ false
  | pass flags ↦ true
]

abbrev pub is_let_through : Request → Bool
is_let_through (to_warmup_start c) = passes_device c
is_let_through _ = true

warmup_start-Times :
    (challenge : Challenge) (c : Claim) (now : ℕ) (w : World)
    → challenge.is_active ≡ true
    → passes_device c ≡ true
    → Times now w
    → Times now (warmup_start (some challenge) c now w).1
unfolding warmup_start
warmup_start-Times challenge c now w h passes t = grind (
  arith,
  Claimed-Times c now w (enforce_one_session c now w.slot) t (enforce-Claimed c now w.slot),
  Same-Times,
  mark_warmup_started-Same,
)

-- No request is made before the one that it follows.
abbrev pub InOrder : ℕ → List (Request × ℕ) → Type 0
InOrder now [] = Unit
InOrder now ((request, later) ∷ requests) = (now ≤ later) × InOrder later requests

abbrev last_time : ℕ → List (Request × ℕ) → ℕ
last_time now [] = now
last_time now ((request, later) ∷ requests) = last_time later requests

fresh-Times :
    (now : ℕ) (w : World)
    → w.slot.session ≡ none
    → ((token : ChallengeToken) → w.token token ≡ none)
    → Times now w
fresh-Times now w fresh no_token = record {
  session = ground arith;
  tokens = grind (arith, no_token);
}

module _ (challenge : Challenge) (hmac : GameSession → Option ℕ)
    (h : challenge.is_active ≡ true) where
  forfeit-Times :
      (now : ℕ) (w : World) → Times now w → Times now (world_or w (forfeit (some challenge) now w))
  unfolding forfeit
  forfeit-Times now w t = grind (arith, Same-Times, abandon_session-Same explicit now w.slot)

  serve-Times :
      (request : Request) (now : ℕ) (w : World)
      → is_let_through request ≡ true
      → Times now w
      → Times now (serve (some challenge) hmac request now w)
  unfolding serve
  serve-Times (to_warmup_start c) now w p t = warmup_start-Times challenge c now w h p t
  serve-Times (to_warmup_complete user) now w p t =
      warmup_complete-Times (some challenge) user now w t
  serve-Times (to_start token) now w p t = start-Times (some challenge) token now w t
  serve-Times (to_answer user round selected reaction) now w p t =
      Same-Times now w (answer (some challenge) hmac user round selected reaction now w.slot).1
        (answer-Same (some challenge) hmac user round selected reaction now w.slot) t
  serve-Times to_forfeit now w p t = forfeit-Times now w t
  serve-Times sweep now w p t =
      Same-Times now w (mark_abandoned_sessions now w.slot).1
        (mark_abandoned_sessions-Same now w.slot) t
  serve-Times (raise_flag id reasons) now w p t =
      Same-Times now w (flag_session id reasons w.slot) (flag_session-Same id reasons w.slot) t
  serve-Times to_restart now w p t = delete-Times now w t

  serve_all-Times :
      (requests : List (Request × ℕ)) (now : ℕ) (w : World)
      → InOrder now requests
      → All (λ r. is_let_through r.0 ≡ true) requests
      → Times now w
      → Times (last_time now requests) (serve_all (some challenge) hmac requests w)
  unfolding serve_all
  serve_all-Times [] now w order pass_all t = t
  serve_all-Times ((request, later) ∷ requests) now w (k, ks) (p, ps) t =
      serve_all-Times requests later (serve (some challenge) hmac request later w) ks ps
        (serve-Times request later w p (Times-later now later w k t))

  -- For an active challenge, after any requests in the order of their times, none of which is refused
  -- for its device's fingerprint, on a slot without a session and without tokens: a session that has
  -- started has completed its warm-up before, and that no sooner than 20 s after the session was
  -- created.
  pub serve_all-WarmedUp :
      (requests : List (Request × ℕ)) (w : World) (r : GameSession)
      → w.slot.session ≡ none
      → ((token : ChallengeToken) → w.token token ≡ none)
      → InOrder 0 requests
      → All (λ request. is_let_through request.0 ≡ true) requests
      → (serve_all (some challenge) hmac requests w).slot.session ≡ some r
      → WarmedUp r.created_at r.warmup_completed_at r.challenge_started_at
  serve_all-WarmedUp requests w r fresh no_token order let_through found = ground (
    arith,
    (serve_all-Times requests 0 w order let_through (fresh-Times 0 w fresh no_token)).session,
  )
