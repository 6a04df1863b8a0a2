-- ===== src/Challenges/Lifecycle.antt =====
-- The API's challenges: every operation that changes a challenge's status, and what statuses they
-- reach. Refunds and payouts stand for all that their components may do to the row.
use brand_blitz.Prelude.{
  ℕ, ◌≡◌, ◌≢◌, refl, ==_iff, inl, inr, Bool, true, false, ◌&&◌, List, [], ◌∷◌, Option, none, some,
  arith, if◌then◌else◌,
}
use brand_blitz.Texts.{Text}
use brand_blitz.Challenges.{
  ChallengeStatus, pending_deposit, active, ended, cancelled, refunded, ChallengeRow,
  is_pending_deposit, Managed, refused, done, create_challenge, is_null, duplicate_challenge,
  publish_draft, update_challenge_status, increment_deposit_confirmations, cancel_with_brand,
  opt_challenge_into_gallery, opt_challenge_out_of_gallery, soft_delete_challenge,
  restore_challenge,
}
use brand_blitz.Challenges.Refund.{Refunding, RefundRequest, set_row, refund_challenge}
use brand_blitz.Challenges.Refund.Marked.{refund_challenge-MarksOnly}
use brand_blitz.Payouts.Process.{PayoutEnd, threw, returned, process_payout}

-- The operations on a row, with what each is given.
pub data Event : Type 0 where
  publish : ℕ → Text → ℕ → ℕ → ℕ → Event
  confirm : ℕ → Event
  deposit : Text → Event
  brand_deleted : Event
  refund_asked : (Text → Option Text) → Option Text → RefundRequest → Refunding → Event
  pay settle_for_test : Event
  opt_in opt_out : ℕ → ℕ → Event
  delete : ℕ → Event
  restore : Event

abbrev managed : Managed → ChallengeRow → ChallengeRow
managed (refused why) c = c
managed (done c') c = c'

abbrev or_same : Option ChallengeRow → ChallengeRow → ChallengeRow
or_same none c = c
or_same (some c') c = c'

-- The webhook activates a challenge that is pending.
abbrev on_deposit : Text → ChallengeRow → ChallengeRow
on_deposit tx c =
    if is_pending_deposit c.status && is_null c.deleted_at
    then update_challenge_status active (some tx) none c
    else c

-- The refund of the row as challenge `req.challenge_id`.
abbrev on_refund :
    (Text → Option Text) → Option Text → RefundRequest → Refunding → ChallengeRow → ChallengeRow
on_refund sender submit req s c =
    or_same
      ((refund_challenge sender submit req
          (record s { challenges = set_row req.challenge_id c s.challenges })).1.challenges
        req.challenge_id)
      c

-- A payout job, which writes nothing, however it ends.
abbrev on_pay : PayoutEnd → ChallengeRow → ChallengeRow
on_pay threw c = c
on_pay returned c = c

-- POST /admin/test/settle-challenge: the challenge is ended and its payout is tried.
unfoldable pub settle_challenge : ChallengeRow → PayoutEnd × ChallengeRow
unfolding update_challenge_status
settle_challenge c =
    let c' = update_challenge_status ended none none c in
    let payout = process_payout (if is_null c'.deleted_at then some c' else none) in
    (payout, on_pay payout c')

unfoldable pub happen : Event → ChallengeRow → ChallengeRow
happen (publish now memo user starts_at ends_at) c =
    managed (publish_draft now memo user starts_at ends_at c) c
happen (confirm required) c = (increment_deposit_confirmations required c).1
happen (deposit tx) c = on_deposit tx c
happen brand_deleted c = cancel_with_brand c
happen (refund_asked sender submit req s) c = on_refund sender submit req s c
happen pay c = on_pay (process_payout (if is_null c.deleted_at then some c else none)) c
happen settle_for_test c = (settle_challenge c).1
happen (opt_in now brand) c = or_same (opt_challenge_into_gallery now brand c) c
happen (opt_out now brand) c = or_same (opt_challenge_out_of_gallery brand c) c
happen (delete now) c = soft_delete_challenge now c
happen restore c = restore_challenge c

unfoldable pub happen_all : List Event → ChallengeRow → ChallengeRow
unfolding happen
happen_all [] c = c
happen_all (e ∷ es) c = happen_all es (happen e c)

-- The statuses in which no payout of a challenge has come to an end, without that of a draft.
abbrev pub is_unpaid : ChallengeStatus → Bool
is_unpaid pending_deposit = true
is_unpaid active = true
is_unpaid ended = true
is_unpaid cancelled = true
is_unpaid refunded = true
is_unpaid _ = false

publish-unpaid :
    (now user starts_at ends_at : ℕ) (memo : Text) (c : ChallengeRow)
    → is_unpaid c.status ≡ true
    → is_unpaid (managed (publish_draft now memo user starts_at ends_at c) c).status ≡ true
unfolding publish_draft
publish-unpaid now user starts_at ends_at memo c h = ground arith

refund-unpaid :
    (sender : Text → Option Text) (submit : Option Text) (req : RefundRequest) (s : Refunding)
    (c : ChallengeRow)
    → is_unpaid c.status ≡ true
    → is_unpaid (on_refund sender submit req s c).status ≡ true
unfolding update_challenge_status
refund-unpaid sender submit req s c h =
    let before : Refunding = record s { challenges = set_row req.challenge_id c s.challenges } in
    let own : before.challenges req.challenge_id ≡ some c =
      ground (arith, (==_iff req.challenge_id req.challenge_id).1 refl) in
    elim (refund_challenge-MarksOnly sender submit req before req.challenge_id) [
      | inl same ↦ ground (arith, same, own)
      | inr (c', marked) ↦ ground (arith, marked)
    ]

on_pay-same : (payout : PayoutEnd) (c : ChallengeRow) → on_pay payout c ≡ c
on_pay-same threw c = refl
on_pay-same returned c = refl

happen-unpaid :
    (e : Event) (c : ChallengeRow)
    → is_unpaid c.status ≡ true
    → is_unpaid (happen e c).status ≡ true
unfolding happen increment_deposit_confirmations update_challenge_status cancel_with_brand
    opt_challenge_into_gallery opt_challenge_out_of_gallery soft_delete_challenge restore_challenge
    settle_challenge
happen-unpaid (publish now memo user starts_at ends_at) c h =
    publish-unpaid now user starts_at ends_at memo c h
happen-unpaid (confirm required) c h = ground arith
happen-unpaid (deposit tx) c h = ground arith
happen-unpaid brand_deleted c h = ground arith
happen-unpaid (refund_asked sender submit req s) c h = refund-unpaid sender submit req s c h
happen-unpaid pay c h = rw (on_pay-same _ c) h
happen-unpaid settle_for_test c h = ground arith
happen-unpaid (opt_in now brand) c h = ground arith
happen-unpaid (opt_out now brand) c h = ground arith
happen-unpaid (delete now) c h = ground arith
happen-unpaid restore c h = ground arith

happen_all-unpaid :
    (events : List Event) (c : ChallengeRow)
    → is_unpaid c.status ≡ true
    → is_unpaid (happen_all events c).status ≡ true
unfolding happen_all
happen_all-unpaid [] c h = h
happen_all-unpaid (e ∷ es) c h = happen_all-unpaid es (happen e c) (happen-unpaid e c h)

copy-unpaid :
    (now actor : ℕ) (challenge_id : Text) (source copy : ChallengeRow)
    → duplicate_challenge now challenge_id actor source ≡ done copy
    → is_unpaid copy.status ≡ true
unfolding duplicate_challenge create_challenge
copy-unpaid now actor challenge_id source copy h = ground arith

unpublishable :
    (now user starts_at ends_at : ℕ) (memo : Text) (c published : ChallengeRow)
    → is_unpaid c.status ≡ true
    → publish_draft now memo user starts_at ends_at c ≢ done published
unfolding publish_draft
unpublishable now user starts_at ends_at memo c published h e = ground arith

-- A copy of a challenge is to be a draft, but is pending: it cannot be published, whatever has
-- happened to it.
pub publish_draft-duplicate_challenge :
    (now later actor user starts_at ends_at : ℕ) (challenge_id memo : Text)
    (source copy published : ChallengeRow) (events : List Event)
    → duplicate_challenge now challenge_id actor source ≡ done copy
    → publish_draft later memo user starts_at ends_at (happen_all events copy) ≢ done published
publish_draft-duplicate_challenge now later actor user starts_at ends_at challenge_id memo source
      copy published events copied =
    unpublishable later user starts_at ends_at memo (happen_all events copy) published
      (happen_all-unpaid events copy (copy-unpaid now actor challenge_id source copy copied))
