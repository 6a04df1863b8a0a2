-- ===== src/InviteCodes/Redeem.antt =====
-- db/queries/invite-codes of the API: the uses of a code, and retries.
use brand_blitz.Prelude.{ℕ, ◌≡◌, Bool, true, false, List, [], ◌∷◌, length, none, some, arith, leb}
use brand_blitz.InviteCodes.{
  InviteCode, Invites, Reply, redeemed, rejected, has_redeemed, redeem_invite_code, redeem_all,
}

abbrev pub within_uses : InviteCode → Bool
within_uses invite = elim invite.max_uses [ none ↦ true | some uses ↦ leb invite.use_count uses ]

-- No user is listed twice.
abbrev pub Once : List ℕ → Type 0
Once [] = Unit
Once (u ∷ us) = (has_redeemed u us ≡ false) × Once us

-- The count of uses is that of the redemptions, of which no user has two, and within the limit.
abbrev pub Counted : Invites → Type 0
Counted s = elim s.code [
  | none ↦ Unit
  | some invite ↦
      (invite.use_count ≡ length s.redemptions) × (within_uses invite ≡ true) × Once s.redemptions
]

redeem-Counted :
    (user now : ℕ) (s : Invites) → Counted s → Counted (redeem_invite_code user now s).1
unfolding redeem_invite_code
redeem-Counted user now s v = ground arith

-- Any redemptions, in any order and by any users, keep the count of uses equal to the number of
-- users who have redeemed the code, and within its limit, where that held before.
pub redeem_all-Counted :
    (requests : List (ℕ × ℕ)) (s : Invites) → Counted s → Counted (redeem_all requests s)
unfolding redeem_all
redeem_all-Counted [] s v = v
redeem_all-Counted ((user, now) ∷ requests) s v =
    redeem_all-Counted requests (redeem_invite_code user now s).1 (redeem-Counted user now s v)

abbrev pub is_redeemed : Reply → Bool
is_redeemed (redeemed r) = true
is_redeemed (rejected e) = false

-- What a redeemed code gives to a user who has redeemed it.
abbrev ReplyFor : ℕ → Invites → Reply → Type 0
ReplyFor user s reply = elim s.code [
  | none ↦ ⊥
  | some invite ↦
      (invite.in_force ≡ true)
      × (has_redeemed user s.redemptions ≡ true)
      × (reply
          ≡ redeemed (record { brand_id = invite.brand_id; challenge_id = invite.challenge_id }))
]

ReplyFor-first :
    (user now : ℕ) (s : Invites)
    → is_redeemed (redeem_invite_code user now s).0 ≡ true
    → ReplyFor user (redeem_invite_code user now s).1 (redeem_invite_code user now s).0
unfolding redeem_invite_code
ReplyFor-first user now s ok = ground arith

ReplyFor-step :
    (user other now : ℕ) (s : Invites) (reply : Reply)
    → ReplyFor user s reply
    → ReplyFor user (redeem_invite_code other now s).1 reply
unfolding redeem_invite_code
ReplyFor-step user other now s reply h = ground arith

ReplyFor-all :
    (user : ℕ) (requests : List (ℕ × ℕ)) (s : Invites) (reply : Reply)
    → ReplyFor user s reply
    → ReplyFor user (redeem_all requests s) reply
unfolding redeem_all
ReplyFor-all user [] s reply h = h
ReplyFor-all user ((other, now) ∷ requests) s reply h =
    ReplyFor-all user requests (redeem_invite_code other now s).1 reply
      (ReplyFor-step user other now s reply h)

ReplyFor-retry :
    (user later : ℕ) (s : Invites) (reply : Reply)
    → ReplyFor user s reply
    → redeem_invite_code user later s ≡ (reply, s)
unfolding redeem_invite_code
ReplyFor-retry user later s reply h = ground arith

-- After a successful redemption and any others, a retry by the same user at any time, even after the
-- expiry or the last use of the code, gives the same reply and changes nothing.
pub redeem_invite_code-retry :
    (user now later : ℕ) (requests : List (ℕ × ℕ)) (s : Invites)
    → is_redeemed (redeem_invite_code user now s).0 ≡ true
    → redeem_invite_code user later (redeem_all requests (redeem_invite_code user now s).1)
      ≡ ((redeem_invite_code user now s).0, redeem_all requests (redeem_invite_code user now s).1)
redeem_invite_code-retry user now later requests s ok =
    let first = redeem_invite_code user now s in
    ReplyFor-retry user later (redeem_all requests first.1) first.0
      (ReplyFor-all user requests first.1 first.0 (ReplyFor-first user now s ok))
