-- ===== src/Streaks/Runs.antt =====
-- services/streaks of the API: a streak is a run of days played one after the other.
use brand_blitz.Prelude.{
  ℕ, ◌+◌, ◌-◌, ◌≤◌, ◌<◌, ◌≡◌, sym, subst, zero, suc, inl, inr, Bool-cases, Option-cases, ==_iff,
  Bool, true, false, ◌||◌, List, [], ◌∷◌, none, some, arith, ◌==◌, if◌then◌else◌,
}
use brand_blitz.Streaks.{StreakState, update_streak, set_user_streak, play_all}

-- The days played, the last first.
abbrev pub played_on : ℕ → List ℕ → Bool
played_on day [] = false
played_on day (d ∷ ds) = d == day || played_on day ds

-- No day is before the one that it follows.
abbrev pub InOrder : ℕ → List ℕ → Type 0
InOrder day [] = Unit
InOrder day (d ∷ ds) = (day ≤ d) × InOrder d ds

-- The streak is the length of the run of played days that ends on `last`: its days were played, and
-- the day before it was not.
pub record IsRun (history : List ℕ) (last : ℕ) (streak : ℕ) : Type 0 where
  pub positive : 0 < streak
  pub bounded : streak ≤ last + 1
  pub run : (k : ℕ) → k < streak → played_on (last - k) history ≡ true
  pub before : (d : ℕ) → d + streak ≡ last → played_on d history ≡ false
  pub later : (d : ℕ) → last < d → played_on d history ≡ false

abbrev pub Tracks : List ℕ → StreakState → Type 0
Tracks history s = elim s.last_play_day [
  | none ↦ (d : ℕ) → played_on d history ≡ false
  | some last ↦ IsRun history last s.streak
]

IsRun-first :
    (today : ℕ) (history : List ℕ)
    → ((d : ℕ) → d < today → d + 1 ≡ today → played_on d history ≡ false)
    → ((d : ℕ) → today < d → played_on d history ≡ false)
    → IsRun (today ∷ history) today 1
IsRun-first today history before later = record {
  positive = omega arith;
  bounded = omega arith;
  run = λ k h. ground arith;
  before = λ d h. ground (arith, before d);
  later = λ d h. ground (arith, later d h);
}

IsRun-next :
    (last streak : ℕ) (history : List ℕ)
    → IsRun history last streak
    → IsRun ((last + 1) ∷ history) (last + 1) (streak + 1)
IsRun-next last streak history run = record {
  positive = omega arith;
  bounded = omega (arith, run.bounded);
  run = λ k h. next_run k h;
  before = λ d h. ground (arith, run.before d (omega arith), run.positive);
  later = λ d h. ground (arith, run.later d (omega arith));
}
  where
    next_run : (k : ℕ) → k < streak + 1 → played_on (last + 1 - k) ((last + 1) ∷ history) ≡ true
    next_run zero h = ground arith
    next_run (suc k) h = ground (arith, run.run k (omega arith))

IsRun-again :
    (last streak : ℕ) (history : List ℕ)
    → IsRun history last streak
    → IsRun (last ∷ history) last streak
IsRun-again last streak history run = record {
  positive = run.positive;
  bounded = run.bounded;
  run = λ k h. ground (arith, run.run k h);
  before = λ d h. ground (arith, run.before d h, run.positive);
  later = λ d h. ground (arith, run.later d h);
}

-- The last day of a state is at most `today`.
abbrev UpTo : ℕ → StreakState → Type 0
UpTo today s = elim s.last_play_day [ none ↦ Unit | some last ↦ last ≤ today ]

IsRun-of :
    (history : List ℕ) (s : StreakState) (last : ℕ)
    → s.last_play_day ≡ some last
    → Tracks history s
    → IsRun history last s.streak
IsRun-of history s last at h = rw at at h

track_of :
    (history : List ℕ) (s : StreakState) (last n : ℕ)
    → s.last_play_day ≡ some last
    → s.streak ≡ n
    → IsRun history last n
    → Tracks history s
track_of history s last n at same run =
    rw (at, Tracks) (subst (λ m. IsRun history last m) (sym same) run)

update_streak-first :
    (today : ℕ) (s : StreakState)
    → s.last_play_day ≡ none
    → ((update_streak today s).last_play_day ≡ some today) × ((update_streak today s).streak ≡ 1)
unfolding update_streak set_user_streak
update_streak-first today s at = ground arith

-- A repeated day, the next day, and a later one.
update_streak-later :
    (today last : ℕ) (s : StreakState)
    → s.last_play_day ≡ some last
    → ((update_streak today s).last_play_day ≡ some today)
      × ((update_streak today s).streak
          ≡ (if last == today then s.streak else if last + 1 == today then s.streak + 1 else 1))
unfolding update_streak set_user_streak
update_streak-later today last s at = ground arith

IsRun-step :
    (today last streak : ℕ) (history : List ℕ)
    → last ≤ today
    → IsRun history last streak
    → IsRun
        (today ∷ history)
        today
        (if last == today then streak else if last + 1 == today then streak + 1 else 1)
IsRun-step today last streak history h run = elim (Bool-cases (last == today)) [
  | inl e ↦ rw e (
      subst (λ d. IsRun (d ∷ history) d streak) ((==_iff last today).0 e)
        (IsRun-again last streak history run))
  | inr e ↦ rw e (elim (Bool-cases (last + 1 == today)) [
    | inl f ↦ rw f (
        subst (λ d. IsRun (d ∷ history) d (streak + 1)) ((==_iff (last + 1) today).0 f)
          (IsRun-next last streak history run))
    | inr f ↦ rw f (
        IsRun-first today history (λ d k l. ground (arith, run.later d))
          (λ d k. run.later d (omega arith)))
  ])
]

update_streak-Tracks :
    (today : ℕ) (history : List ℕ) (s : StreakState)
    → UpTo today s
    → Tracks history s
    → Tracks (today ∷ history) (update_streak today s)
update_streak-Tracks today history s upto h = elim (Option-cases s.last_play_day) [
  | inl e ↦
      let none_played : (d : ℕ) → played_on d history ≡ false = rw e at h in
      let after = update_streak-first today s e in
      track_of (today ∷ history) (update_streak today s) today 1 after.0 after.1
        (IsRun-first today history (λ d k l. none_played d) (λ d k. none_played d))
  | inr (last, e) ↦
      let after = update_streak-later today last s e in
      track_of (today ∷ history) (update_streak today s) today
        (if last == today then s.streak else if last + 1 == today then s.streak + 1 else 1) after.0
        after.1 (IsRun-step today last s.streak history (rw e at upto) (rw e at h))
]

update_streak-UpTo : (today : ℕ) (s : StreakState) → UpTo today (update_streak today s)
unfolding update_streak set_user_streak
update_streak-UpTo today s = ground arith

UpTo-later : (day today : ℕ) (s : StreakState) → day ≤ today → UpTo day s → UpTo today s
UpTo-later day today s h upto = ground arith

abbrev pub history_of : List ℕ → List ℕ → List ℕ
history_of [] history = history
history_of (d ∷ ds) history = history_of ds (d ∷ history)

play_all-Tracks :
    (days : List ℕ) (day : ℕ) (history : List ℕ) (s : StreakState)
    → InOrder day days
    → UpTo day s
    → Tracks history s
    → Tracks (history_of days history) (play_all days s)
unfolding play_all
play_all-Tracks [] day history s order upto h = h
play_all-Tracks (d ∷ ds) day history s (k, ks) upto h =
    play_all-Tracks ds d (d ∷ history) (update_streak d s) ks (update_streak-UpTo d s)
      (update_streak-Tracks d history s (UpTo-later day d s k upto) h)

-- For a user who has never played, after plays on days in their order, the streak is the length of
-- the longest run of played days that ends on the last of them.
pub play_all-IsRun :
    (days : List ℕ) (s : StreakState) (last : ℕ)
    → InOrder 0 days
    → s.last_play_day ≡ none
    → (play_all days s).last_play_day ≡ some last
    → IsRun (history_of days []) last (play_all days s).streak
play_all-IsRun days s last order fresh at =
    IsRun-of (history_of days []) (play_all days s) last at
      (play_all-Tracks days 0 [] s order (ground arith) (ground arith))
