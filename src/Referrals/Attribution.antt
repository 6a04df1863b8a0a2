-- ===== src/Referrals/Attribution.antt =====
-- services/referrals of the API: what any visits, sign-ins, expiries and rewards leave of the
-- referrals, and what the check of cycles does not see.
use brand_blitz.Prelude.{
  ℕ, ◌≡◌, ◌≢◌, refl, inl, inr, Bool, true, false, ◌&&◌, ◌||◌, List, [], ◌∷◌, Option, none, some,
  arith, ◌==◌, Bool-cases, Option-cases,
}
use brand_blitz.Texts.{Text}
use brand_blitz.Referrals.{
  Referral, Referrals, ReferralRequest, is_valid_code, code_of, normalize_code, read_referral_code,
  find_referral_by_referred_id, find_referral_by_referrer_and_referred, create_referral, put,
  mark_referral_rewarded, record_referral_fingerprint, referral_attribution_middleware, is_there,
  attribute, consume_pending_referral_attribution, Event, visit, sign_in, forget_owner, forget_code,
  reward, step, run,
}

-- `u` referred `v`.
abbrev pub refers : ℕ → ℕ → List Referral → Bool
refers u v [] = false
refers u v (r ∷ rows) = (r.referrer_id == u && r.referred_id == v) || refers u v rows

-- Nobody refers themselves, nobody has two referrers, and no two users refer one another.
pub record WellReferred (rows : List Referral) : Type 0 where
  pub irreflexive : (u : ℕ) → refers u u rows ≡ false
  pub asymmetric : (u v : ℕ) → refers u v rows ≡ true → refers v u rows ≡ false
  pub once : (u w v : ℕ) → refers u v rows ≡ true → refers w v rows ≡ true → u ≡ w

is_there-pair :
    (u v : ℕ) (rows : List Referral)
    → is_there (find_referral_by_referrer_and_referred u v rows) ≡ refers u v rows
unfolding find_referral_by_referrer_and_referred
is_there-pair u v [] = refl
is_there-pair u v (r ∷ rows) = ground (arith, is_there-pair u v rows)

refers-unreferred :
    (u v : ℕ) (rows : List Referral)
    → is_there (find_referral_by_referred_id v rows) ≡ false
    → refers u v rows ≡ false
unfolding find_referral_by_referred_id
refers-unreferred u v [] h = refl
refers-unreferred u v (r ∷ rows) h = ground (arith, refers-unreferred u v rows)

refers-mark :
    (u v user : ℕ) (rows : List Referral)
    → refers u v (mark_referral_rewarded user rows) ≡ refers u v rows
unfolding mark_referral_rewarded
refers-mark u v user [] = refl
refers-mark u v user (r ∷ rows) = ground (arith, refers-mark u v user rows)

refers-create :
    (u v referrer user : ℕ) (rows : List Referral)
    → is_there (find_referral_by_referred_id user rows) ≡ false
    → refers u v (create_referral referrer user rows)
      ≡ ((referrer == u && user == v) || refers u v rows)
unfolding create_referral
refers-create u v referrer user rows h = ground arith

create-WellReferred :
    (referrer user : ℕ) (rows : List Referral)
    → WellReferred rows
    → (referrer == user) ≡ false
    → refers user referrer rows ≡ false
    → is_there (find_referral_by_referred_id user rows) ≡ false
    → WellReferred (create_referral referrer user rows)
create-WellReferred referrer user rows well other reverse fresh = record {
  irreflexive = λ u. ground (arith, refers-create u u referrer user rows fresh, well.irreflexive u);
  asymmetric = λ u v h. ground (
    arith,
    refers-create u v referrer user rows fresh,
    refers-create v u referrer user rows fresh,
    well.asymmetric u v,
  );
  once = λ u w v h k. ground (
    arith,
    refers-create u v referrer user rows fresh,
    refers-create w v referrer user rows fresh,
    refers-unreferred u user rows fresh,
    refers-unreferred w user rows fresh,
    well.once u w v,
  );
}

mark-WellReferred :
    (user : ℕ) (rows : List Referral)
    → WellReferred rows
    → WellReferred (mark_referral_rewarded user rows)
mark-WellReferred user rows well = record {
  irreflexive = λ u. rw (refers-mark u u user rows) (well.irreflexive u);
  asymmetric = λ u v h.
      rw (refers-mark v u user rows) (well.asymmetric u v (rw (refers-mark u v user rows) at h));
  once = λ u w v h k.
      well.once u w v (rw (refers-mark u v user rows) at h) (rw (refers-mark w v user rows) at k);
}

module _ (find_user : Text → Option ℕ) where
  attribute-WellReferred :
      (user fingerprint referrer : ℕ) (s : Referrals)
      → WellReferred s.referrals
      → WellReferred (attribute find_user user fingerprint referrer s).1.referrals
  unfolding attribute record_referral_fingerprint
  attribute-WellReferred user fingerprint referrer s well = ground (
    arith,
    create-WellReferred referrer user s.referrals well,
    is_there-pair user referrer s.referrals,
  )

  step-WellReferred :
      (e : Event) (s : Referrals)
      → WellReferred s.referrals
      → WellReferred (step find_user e s).referrals
  unfolding step consume_pending_referral_attribution referral_attribution_middleware
      record_referral_fingerprint
  step-WellReferred (visit req) s well = ground arith
  step-WellReferred (sign_in user req) s well = elim (Bool-cases (is_valid_code (code_of req s))) [
    | inl valid ↦
        rw (valid, step)
          (elim (Option-cases (find_user (code_of req s))) [
            | inl nobody ↦ rw nobody well
            | inr (r, found) ↦ rw found (attribute-WellReferred user req.fingerprint r s well)
          ])
    | inr invalid ↦ rw (invalid, step) well
  ]
  step-WellReferred (forget_owner fingerprint) s well = well
  step-WellReferred (forget_code fingerprint) s well = well
  step-WellReferred (reward user) s well = mark-WellReferred user s.referrals well

-- Whatever visits, sign-ins, expiries and rewards happen, nobody comes to refer themselves or to have
-- two referrers, and no two users come to refer one another.
pub run-WellReferred :
    (find_user : Text → Option ℕ) (events : List Event) (s : Referrals)
    → WellReferred s.referrals
    → WellReferred (run find_user events s).referrals
unfolding run
run-WellReferred find_user [] s well = well
run-WellReferred find_user (e ∷ es) s well =
    run-WellReferred find_user es (step find_user e s) (step-WellReferred find_user e s well)

-- The request names a valid code of the user.
abbrev pub Carries : (Text → Option ℕ) → ReferralRequest → ℕ → Type 0
Carries find_user req u =
    (t : Text) × (read_referral_code req ≡ some t)
    × (is_valid_code (normalize_code t) ≡ true)
    × (find_user (normalize_code t) ≡ some u)

-- The referrer and the user are not the same, the device has no owner, and the user has no referral.
record Attributable (user fingerprint referrer : ℕ) (s : Referrals) : Type 0 where
  other : (referrer == user) ≡ false
  unowned : s.owner_of fingerprint ≡ none
  forward : refers user referrer s.referrals ≡ false
  fresh : is_there (find_referral_by_referred_id user s.referrals) ≡ false

sign_in-attributed :
    (find_user : Text → Option ℕ) (user referrer : ℕ) (req : ReferralRequest) (s : Referrals)
    → Carries find_user req referrer
    → Attributable user req.fingerprint referrer s
    → ((step find_user (sign_in user req) s).referrals
        ≡ record { referrer_id = referrer; referred_id = user; rewarded = false } ∷ s.referrals)
      × ((step find_user (sign_in user req) s).owner_of ≡ put req.fingerprint user s.owner_of)
unfolding step consume_pending_referral_attribution attribute record_referral_fingerprint code_of
    create_referral
sign_in-attributed find_user user referrer req s (t, at, valid, found) h =
    ground (arith, is_there-pair user referrer s.referrals, h.other, h.unowned, h.forward, h.fresh)

abbrev pub no_referrals : Referrals
no_referrals = record { referrals = []; owner_of = λ k. none; pending = λ k. none }

abbrev pub referral : ℕ → ℕ → Referral
referral u v = record { referrer_id = u; referred_id = v; rewarded = false }

-- The check of cycles looks at one referral only: three users, each with a device of their own and
-- the code of the one before, come to refer one another in a circle.
three_may_cycle :
    (find_user : Text → Option ℕ) (a b c : ℕ) (of_a of_b of_c : ReferralRequest)
    → Carries find_user of_a a
    → Carries find_user of_b b
    → Carries find_user of_c c
    → (a ≢ b) × (b ≢ c) × (a ≢ c)
    → (of_a.fingerprint ≢ of_b.fingerprint)
      × (of_b.fingerprint ≢ of_c.fingerprint)
      × (of_a.fingerprint ≢ of_c.fingerprint)
    → (run find_user (sign_in b of_a ∷ sign_in c of_b ∷ sign_in a of_c ∷ []) no_referrals).referrals
      ≡ referral c a ∷ referral b c ∷ referral a b ∷ []
unfolding run
three_may_cycle find_user a b c of_a of_b of_c ca cb cc' users devices =
    let s1 = step find_user (sign_in b of_a) no_referrals in
    let s2 = step find_user (sign_in c of_b) s1 in
    let first = sign_in-attributed find_user b a of_a no_referrals ca (record {
      other = ground arith;
      unowned = refl;
      forward = refl;
      fresh = unfold find_referral_by_referred_id in refl;
    }) in
    let second = sign_in-attributed find_user c b of_b s1 cb (record {
      other = ground arith;
      unowned = ground (arith, first.1);
      forward = ground (arith, first.0);
      fresh = unfold find_referral_by_referred_id in ground (arith, first.0);
    }) in
    let third = sign_in-attributed find_user a c of_c s2 cc' (record {
      other = ground arith;
      unowned = ground (arith, first.1, second.1);
      forward = ground (arith, first.0, second.0);
      fresh = unfold find_referral_by_referred_id in ground (arith, first.0, second.0);
    }) in
    ground (arith, first.0, second.0, third.0)
