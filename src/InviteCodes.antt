-- ===== src/InviteCodes.antt =====
-- db/queries/invite-codes of the API: the redemption of one code, which locks the code's row and
-- runs as one transaction. The state is what of the database the redemption reads and writes.
pub mod Redeem
use brand_blitz.Prelude.{
  ℕ, ◌+◌, ◌≤◌, ◌≡◌, Bool, true, false, ◌&&◌, ◌||◌, not, List, [], ◌∷◌, length, Option, none, some,
  arith, ltb, leb, ◌==◌, if◌then◌else◌,
}

-- The row of the code. `in_force` is that its brand and its challenge, if it has one, are there.
pub record InviteCode : Type 0 where
  pub brand_id : ℕ
  pub challenge_id : Option ℕ
  pub in_force : Bool
  pub expires_at : Option ℕ
  pub max_uses : Option ℕ
  pub use_count : ℕ

pub record WaitlistEntry : Type 0 where
  pub is_active : Bool
  pub activated_at : Option ℕ

pub data RedeemError : Type 0 where
  invalid_code expired exhausted not_waitlisted : RedeemError

pub record Redeemed : Type 0 where
  pub brand_id : ℕ
  pub challenge_id : Option ℕ

pub record Invites : Type 0 where
  pub code : Option InviteCode
  pub redemptions : List ℕ
  pub waitlist : ℕ → Option WaitlistEntry
  pub audit : List ℕ

pub data Reply : Type 0 where
  redeemed : Redeemed → Reply
  rejected : RedeemError → Reply

abbrev pub has_redeemed : ℕ → List ℕ → Bool
has_redeemed user [] = false
has_redeemed user (u ∷ us) = u == user || has_redeemed user us

abbrev pub has_expired : Option ℕ → ℕ → Bool
has_expired none now = false
has_expired (some t) now = leb t now

abbrev pub is_exhausted : InviteCode → Bool
is_exhausted invite = elim invite.max_uses [ none ↦ false | some uses ↦ leb uses invite.use_count ]

abbrev reply_of : InviteCode → Reply
reply_of invite =
    redeemed (record { brand_id = invite.brand_id; challenge_id = invite.challenge_id })

abbrev activate : WaitlistEntry → ℕ → WaitlistEntry
activate entry now = record {
  is_active = true;
  activated_at = elim entry.activated_at [ none ↦ some now | some t ↦ some t ];
}

-- The four writes of a redemption.
abbrev redeem_writes : InviteCode → WaitlistEntry → ℕ → ℕ → Invites → Invites
redeem_writes invite entry user now s = record {
  code = some (record invite { use_count = invite.use_count + 1 });
  redemptions = user ∷ s.redemptions;
  waitlist = λ u. if u == user then some (activate entry now) else s.waitlist u;
  audit = user ∷ s.audit;
}

-- The user's waitlist entry is found by the email of an active account, so it belongs to the user.
unfoldable pub redeem_invite_code : ℕ → ℕ → Invites → Reply × Invites
redeem_invite_code user now s = elim s.code [
  | none ↦ (rejected invalid_code, s)
  | some invite ↦
      if not invite.in_force
      then (rejected invalid_code, s)
      else if has_redeemed user s.redemptions
      then (reply_of invite, s)
      else if has_expired invite.expires_at now
      then (rejected expired, s)
      else if is_exhausted invite
      then (rejected exhausted, s)
      else elim (s.waitlist user) [
        | none ↦ (rejected not_waitlisted, s)
        | some entry ↦ (reply_of invite, redeem_writes invite entry user now s)
      ]
]

-- Redemptions in the order in which they get the lock.
unfoldable pub redeem_all : List (ℕ × ℕ) → Invites → Invites
redeem_all [] s = s
redeem_all ((user, now) ∷ requests) s = redeem_all requests (redeem_invite_code user now s).1
