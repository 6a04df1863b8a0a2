-- ===== src/Deposits/Cursor.antt =====
-- apps/deposit-monitor/src/index: the cursor passes no deposit that was not acknowledged.
use brand_blitz.Prelude.{
  ℕ, suc, ◌≤◌, ◌<◌, ◌≡◌, refl, subst, sym, inl, inr, Bool, true, List, [], ◌∷◌, Option, none, some,
  arith, get_elem?, All, All-at, ltb, ltb→lt, if◌then◌else◌, Bool-cases, Option-cases,
}
use brand_blitz.Deposits.{DepositEvent}
use brand_blitz.Deposits.Monitor.{Fetched, MonitorState, deliver_all, from_ledger, poll, poll_all}

-- A deposit is among those that were fetched.
abbrev pub Listed : DepositEvent → List DepositEvent → Type 0
Listed e events = (i : ℕ) × (get_elem? events i ≡ some e)

-- `OnChain` are the deposits to the wallet; a fetch is complete from its ledger to the latest.
abbrev Complete : (DepositEvent → Type 0) → (ℕ → Option Fetched) → Type 0
Complete OnChain fetched =
    (from : ℕ) (reply : Fetched)
    → fetched from ≡ some reply
    → (e : DepositEvent) → OnChain e
    → from ≤ e.ledger
    → e.ledger ≤ reply.latest_ledger
    → Listed e reply.events

module _ {W : Type 0} (deliver : DepositEvent → W → Bool × W) (OnChain : DepositEvent → Type 0)
    (Processed : DepositEvent → W → Type 0)
    (processed : (e : DepositEvent) (w : W) → (deliver e w).0 ≡ true → Processed e (deliver e w).1)
    (kept : (e d : DepositEvent) (w : W) → Processed e w → Processed e (deliver d w).1) where
  deliver_all-kept :
      (events : List DepositEvent) (w : W) (e : DepositEvent)
      → Processed e w
      → Processed e (deliver_all deliver events w).1
  unfolding deliver_all
  deliver_all-kept [] w e p = p
  deliver_all-kept (d ∷ ds) w e p = elim (Bool-cases (deliver d w).0) [
    | inl h ↦ rw h (deliver_all-kept ds (deliver d w).1 e (kept e d w p))
    | inr h ↦ rw h (kept e d w p)
  ]

  deliver_all-cons :
      (d : DepositEvent) (ds : List DepositEvent) (w : W)
      → (deliver d w).0 ≡ true
      → deliver_all deliver (d ∷ ds) w ≡ deliver_all deliver ds (deliver d w).1
  unfolding deliver_all
  deliver_all-cons d ds w ok = rw ok refl

  deliver_all-processed :
      (events : List DepositEvent) (w : W)
      → (deliver_all deliver events w).0 ≡ true
      → All (λ e. Processed e (deliver_all deliver events w).1) events
  unfolding deliver_all
  deliver_all-processed [] w h = tt
  deliver_all-processed (d ∷ ds) w h = elim (Bool-cases (deliver d w).0) [
    | inl ok ↦
        subst (λ result. All (λ e. Processed e result.1) (d ∷ ds))
          (sym (deliver_all-cons d ds w ok))
          (
            deliver_all-kept ds (deliver d w).1 d (processed d w ok),
            deliver_all-processed ds (deliver d w).1
                (subst (λ result. result.0 ≡ true) (deliver_all-cons d ds w ok) h),
          )
    | inr failed ↦ ground arith
  ]

  -- The deposits from `first` up to the cursor are processed.
  abbrev Passed : ℕ → MonitorState W → Type 0
  Passed first s =
      (e : DepositEvent)
      → OnChain e
      → first ≤ e.ledger
      → e.ledger < from_ledger s.last_ledger
      → Processed e s.receiver

  record Sound (first : ℕ) (s : MonitorState W) : Type 0 where
    started : 0 < from_ledger s.last_ledger
    passed : Passed first s

  -- What a poll whose fetch succeeds makes of the state, by whether all webhooks are acknowledged.
  poll-some :
      (fetched : ℕ → Option Fetched) (s : MonitorState W) (reply : Fetched)
      → 0 < from_ledger s.last_ledger
      → fetched (from_ledger s.last_ledger) ≡ some reply
      → ((poll deliver fetched s).receiver ≡ (deliver_all deliver reply.events s.receiver).1)
        × (from_ledger (poll deliver fetched s).last_ledger ≡ (
            if (deliver_all deliver reply.events s.receiver).0
            then (if ltb (from_ledger s.last_ledger) reply.latest_ledger
                then reply.latest_ledger
                else from_ledger s.last_ledger)
            else from_ledger s.last_ledger))
  unfolding poll
  poll-some fetched s reply started h = ground arith

  poll-none :
      (fetched : ℕ → Option Fetched) (s : MonitorState W)
      → fetched (from_ledger s.last_ledger) ≡ none
      → poll deliver fetched s ≡ s
  unfolding poll
  poll-none fetched s h = ground arith

  -- A deposit below the new cursor was passed before, or it is among those acknowledged now.
  fetched_passed :
      (first : ℕ) (fetched : ℕ → Option Fetched) (s : MonitorState W) (reply : Fetched)
      → Complete OnChain fetched
      → Sound first s
      → fetched (from_ledger s.last_ledger) ≡ some reply
      → (e : DepositEvent) → OnChain e
      → first ≤ e.ledger
      → e.ledger < from_ledger (poll deliver fetched s).last_ledger
      → Processed e (deliver_all deliver reply.events s.receiver).1
  fetched_passed first fetched s reply complete sound h e on_chain from below =
      elim (Bool-cases (ltb e.ledger (from_ledger s.last_ledger))) [
        | inl old ↦
            deliver_all-kept reply.events s.receiver e
              (sound.passed e on_chain from (ltb→lt e.ledger (from_ledger s.last_ledger) old))
        | inr recent ↦
            let result = poll-some fetched s reply sound.started h in
            let listed =
              complete (from_ledger s.last_ledger) reply h e on_chain (ground arith)
                (ground (arith, result.1)) in
            All-at (λ d. Processed d (deliver_all deliver reply.events s.receiver).1) reply.events
              listed.0 e (deliver_all-processed reply.events s.receiver (ground (arith, result.1)))
              listed.1
      ]

  fetched_Sound :
      (first : ℕ) (fetched : ℕ → Option Fetched) (s : MonitorState W) (reply : Fetched)
      → Complete OnChain fetched
      → Sound first s
      → fetched (from_ledger s.last_ledger) ≡ some reply
      → Sound first (poll deliver fetched s)
  fetched_Sound first fetched s reply complete sound h =
      let result = poll-some fetched s reply sound.started h in
      record {
        started = ground (arith, result.1, sound.started);
        passed = λ e on_chain from below.
            rw result.0
              (fetched_passed first fetched s reply complete sound h e on_chain from below);
      }

  poll-Sound :
      (first : ℕ) (fetched : ℕ → Option Fetched) (s : MonitorState W)
      → Complete OnChain fetched
      → Sound first s
      → Sound first (poll deliver fetched s)
  poll-Sound first fetched s complete sound =
      elim (Option-cases (fetched (from_ledger s.last_ledger))) [
        | inl h ↦ rw (poll-none fetched s h) sound
        | inr (reply, h) ↦ fetched_Sound first fetched s reply complete sound h
      ]

  poll_all-Sound :
      (first : ℕ) (polls : List (ℕ → Option Fetched)) (s : MonitorState W)
      → All (Complete OnChain) polls
      → Sound first s
      → Sound first (poll_all deliver polls s)
  unfolding poll_all
  poll_all-Sound first [] s _ sound = sound
  poll_all-Sound first (fetched ∷ polls) s (complete, rest) sound =
      poll_all-Sound first polls (poll deliver fetched s) rest
        (poll-Sound first fetched s complete sound)

  -- Where every fetch that succeeds is complete, an acknowledged webhook means that the deposit is
  -- processed, and processed deposits stay so: after any polls from a positive cursor, with failing
  -- fetches and webhooks among them, all deposits from that cursor's ledger up to, without, the new
  -- cursor's are processed.
  poll_all-Processed :
      (polls : List (ℕ → Option Fetched)) (s : MonitorState W) (e : DepositEvent)
      → All (Complete OnChain) polls
      → 0 < from_ledger s.last_ledger
      → OnChain e
      → from_ledger s.last_ledger ≤ e.ledger
      → e.ledger < from_ledger (poll_all deliver polls s).last_ledger
      → Processed e (poll_all deliver polls s).receiver
  poll_all-Processed polls s e complete started on_chain from below =
      (poll_all-Sound (from_ledger s.last_ledger) polls s complete
          (record { started = started; passed = λ d _ above beneath. ground arith })).passed
        e on_chain from below

-- A receiver with the log of the deposits that it has acknowledged.
unfoldable pub logged :
    {W : Type 0}
    → (DepositEvent → W → Bool × W)
    → DepositEvent
    → W × List DepositEvent
    → Bool × (W × List DepositEvent)
logged deliver event (w, log) =
    let reply = deliver event w in (reply.0, (reply.1, if reply.0 then event ∷ log else log))

-- The deposit is in the events of each fetch of the polls that succeeds and whose ledgers, from the
-- cursor that it is given to the latest, are around the deposit's.
abbrev pub SeenBy : DepositEvent → (ℕ → Option Fetched) → Type 0
SeenBy e fetched =
    (from : ℕ) (reply : Fetched)
    → fetched from ≡ some reply
    → from ≤ e.ledger
    → e.ledger ≤ reply.latest_ledger
    → Listed e reply.events

logged-acknowledged :
    {W : Type 0} (deliver : DepositEvent → W → Bool × W) (e : DepositEvent)
    (w : W × List DepositEvent)
    → (logged deliver e w).0 ≡ true
    → Listed e (logged deliver e w).1.1
unfolding logged
logged-acknowledged deliver e (w, log) ok = rw ok (0, refl)

logged-kept :
    {W : Type 0} (deliver : DepositEvent → W → Bool × W) (e d : DepositEvent)
    (w : W × List DepositEvent)
    → Listed e w.1
    → Listed e (logged deliver d w).1.1
unfolding logged
logged-kept deliver e d (w, log) (i, at) = elim (Bool-cases (deliver d w).0) [
  | inl ok ↦ rw ok (suc i, at)
  | inr failed ↦ rw failed (i, at)
]

seen-Complete :
    (e : DepositEvent) (polls : List (ℕ → Option Fetched))
    → All (SeenBy e) polls
    → All (Complete (λ d. d ≡ e)) polls
seen-Complete e [] seen = tt
seen-Complete e (fetched ∷ polls) (seen, rest) = (
  λ from reply found d same above below.
      subst (λ c. Listed c reply.events) (sym same)
        (seen from reply found (ground (arith, same)) (ground (arith, same))),
  seen-Complete e polls rest,
)

-- The cursor passes no deposit that was not acknowledged: after any polls from a positive cursor, with
-- failing fetches and webhooks among them, a deposit of the passed ledgers that each of the fetches
-- around its ledger lists is one that the receiver has acknowledged.
pub poll_all-acknowledged :
    {W : Type 0} (deliver : DepositEvent → W → Bool × W) (polls : List (ℕ → Option Fetched))
    (s : MonitorState (W × List DepositEvent)) (e : DepositEvent)
    → All (SeenBy e) polls
    → 0 < from_ledger s.last_ledger
    → from_ledger s.last_ledger ≤ e.ledger
    → e.ledger < from_ledger (poll_all (logged deliver) polls s).last_ledger
    → Listed e (poll_all (logged deliver) polls s).receiver.1
poll_all-acknowledged {W} deliver polls s e seen started from below =
    poll_all-Processed (logged deliver) (λ d. d ≡ e) (λ d w. Listed d w.1)
      (logged-acknowledged deliver) (logged-kept deliver) polls s e (seen-Complete e polls seen)
      started refl from below
