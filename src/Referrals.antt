-- ===== src/Referrals.antt =====
-- services/referrals, middleware/referral-attribution and db/queries/referrals of the API: who
-- referred whom. A referral is named by the user who was referred, which is its key. A fingerprint
-- is the number of the device that computeFingerprint finds.
pub mod Attribution
pub mod Bonus
use brand_blitz.Prelude.{
  ℕ, ◌-◌, Bool, true, false, ◌&&◌, ◌||◌, not, List, [], ◌∷◌, ◌++◌, Option, none, some, length,
  every, find, leb, ◌==◌, if◌then◌else◌,
}
use brand_blitz.Texts.{Text, is_blank, is_digit, trim, to_upper_case}

pub record Referral : Type 0 where
  pub referrer_id : ℕ
  pub referred_id : ℕ
  pub rewarded : Bool

-- The table, and the keys of Redis by fingerprint: the owner of a device, and a pending code.
pub record Referrals : Type 0 where
  pub referrals : List Referral
  pub owner_of : ℕ → Option ℕ
  pub pending : ℕ → Option Text

-- The parts of a request that are read: `ref` of the query and of the cookies, where it is a string.
pub record ReferralRequest : Type 0 where
  pub fingerprint : ℕ
  pub query_ref : Option Text
  pub cookie_ref : Option Text

unfoldable pub normalize_code : Text → Text
normalize_code code = to_upper_case (trim code)

-- `/^[A-Z0-9]{6}$/`.
unfoldable pub is_valid_code : Text → Bool
is_valid_code code = length code == 6 && every (λ c. leb b'A' c && leb c b'Z' || is_digit c) code

abbrev present : Option Text → Option Text
present text = elim text [
  | none ↦ none
  | some t ↦ if is_blank (trim t) then none else some (trim t)
]

abbrev or_else : Option Text → Option Text → Option Text
or_else first second = elim first [ none ↦ second | some t ↦ some t ]

unfoldable pub read_referral_code : ReferralRequest → Option Text
read_referral_code req = or_else (present req.query_ref) (present req.cookie_ref)

abbrev put {ℓ} : {A : Type ℓ} → ℕ → A → (ℕ → Option A) → ℕ → Option A
put key value store k = if key == k then some value else store k

abbrev delete {ℓ} : {A : Type ℓ} → ℕ → (ℕ → Option A) → ℕ → Option A
delete key store k = if key == k then none else store k

unfoldable pub find_referral_by_referred_id : ℕ → List Referral → Option Referral
find_referral_by_referred_id referred rows = find (λ r. r.referred_id == referred) rows

unfoldable pub find_referral_by_referrer_and_referred : ℕ → ℕ → List Referral → Option Referral
find_referral_by_referrer_and_referred referrer referred rows =
    find (λ r. r.referrer_id == referrer && r.referred_id == referred) rows

-- The insertion, which leaves a referral of the same user as it is.
unfoldable pub create_referral : ℕ → ℕ → List Referral → List Referral
unfolding find_referral_by_referred_id
create_referral referrer referred rows = elim (find_referral_by_referred_id referred rows) [
  | none ↦ record { referrer_id = referrer; referred_id = referred; rewarded = false } ∷ rows
  | some r ↦ rows
]

unfoldable pub mark_referral_rewarded : ℕ → List Referral → List Referral
mark_referral_rewarded referred [] = []
mark_referral_rewarded referred (r ∷ rows) =
    (if r.referred_id == referred then record r { rewarded = true } else r)
    ∷ mark_referral_rewarded referred rows

unfoldable pub record_referral_fingerprint : ℕ → ℕ → Referrals → Referrals
record_referral_fingerprint user fingerprint s = record s {
  owner_of = put fingerprint user s.owner_of;
}

pub data AttributionReply : Type 0 where
  attributed unattributed self_referral device_rejected cycle_detected : AttributionReply

abbrev is_other : Option ℕ → ℕ → Bool
is_other owner user = elim owner [ none ↦ false | some u ↦ not (u == user) ]

abbrev is_there : Option Referral → Bool
is_there row = elim row [ none ↦ false | some r ↦ true ]

abbrev normalized : Option Text → Option Text
normalized text = elim text [
  | none ↦ none
  | some t ↦ if is_valid_code (normalize_code t) then some (normalize_code t) else none
]

-- The middleware keeps a valid code of the query, or else of the cookies, for the device.
unfoldable pub referral_attribution_middleware : ReferralRequest → Referrals → Referrals
referral_attribution_middleware req s =
    elim (or_else (normalized req.query_ref) (normalized req.cookie_ref)) [
      | none ↦ s
      | some code ↦ record s { pending = put req.fingerprint code s.pending }
    ]

-- The code of a request, which is that of the device where the request has none.
unfoldable pub code_of : ReferralRequest → Referrals → Text
code_of req s = elim (or_else (read_referral_code req) (s.pending req.fingerprint)) [
  | none ↦ normalize_code []
  | some t ↦ normalize_code t
]

-- What happens to the state: visits and sign-ins, keys that Redis forgets, and rewards.
pub data Event : Type 0 where
  visit : ReferralRequest → Event
  sign_in : ℕ → ReferralRequest → Event
  forget_owner forget_code : ℕ → Event
  reward : ℕ → Event

-- The users' codes are not changed here.
module _ (find_user_by_referral_code : Text → Option ℕ) where
  -- What follows once the code's owner is known.
  attribute : ℕ → ℕ → ℕ → Referrals → AttributionReply × Referrals
  unfolding record_referral_fingerprint
  attribute user fingerprint referrer s =
      if referrer == user
      then (self_referral, s)
      else if is_other (s.owner_of fingerprint) user
      then (device_rejected, s)
      else if is_there (find_referral_by_referrer_and_referred user referrer s.referrals)
      then (cycle_detected, s)
      else if is_there (find_referral_by_referred_id user s.referrals)
      then (unattributed, record_referral_fingerprint user fingerprint s)
      else (
        attributed,
        record_referral_fingerprint user fingerprint (record s {
          referrals = create_referral referrer user s.referrals;
          pending = delete fingerprint s.pending;
        }),
      )

  unfoldable pub consume_pending_referral_attribution :
      ℕ → ReferralRequest → Referrals → AttributionReply × Referrals
  unfolding attribute record_referral_fingerprint
  consume_pending_referral_attribution user req s =
      let code = code_of req s in
      let unknown : AttributionReply × Referrals =
        (unattributed, record_referral_fingerprint user req.fingerprint s) in
      if not (is_valid_code code) then unknown else elim (find_user_by_referral_code code) [
        | none ↦ unknown
        | some referrer ↦ attribute user req.fingerprint referrer s
      ]

  unfoldable pub step : Event → Referrals → Referrals
  unfolding consume_pending_referral_attribution referral_attribution_middleware
  step (visit req) s = referral_attribution_middleware req s
  step (sign_in user req) s = (consume_pending_referral_attribution user req s).1
  step (forget_owner fingerprint) s = record s { owner_of = delete fingerprint s.owner_of }
  step (forget_code fingerprint) s = record s { pending = delete fingerprint s.pending }
  step (reward user) s = record s { referrals = mark_referral_rewarded user s.referrals }

  unfoldable pub run : List Event → Referrals → Referrals
  unfolding step
  run [] s = s
  run (e ∷ es) s = run es (step e s)
