-- ===== src/Deposits/Replay.antt =====
-- middleware/verify-webhook and routes/webhooks of the API: a webhook that comes again.
use brand_blitz.Prelude.{ℕ, ◌+◌, ◌<◌, ◌≡◌, refl, Bool, true, false, List, [], ◌∷◌, some, arith}
use brand_blitz.Texts.{Text, same_text, same_text_iff}
use brand_blitz.Deposits.Verify.{
  Secrets, WebhookRequest, accepted, is_seen, verify_request, verify_webhook,
}
use brand_blitz.Deposits.Webhook.{
  Challenge, Body, duplicate_id, activated, is_deposit_tx, by_memo, activate, handle_deposit,
  ApiState, deposit_webhook,
}

same_text-own : (s : Text) → same_text s s ≡ true
same_text-own s = (same_text_iff s s).1 refl

is_deposit_tx-activate :
    (memo tx : Text) (cs : List Challenge) (c : Challenge)
    → by_memo memo cs ≡ some c
    → is_deposit_tx tx (activate memo tx cs) ≡ true
is_deposit_tx-activate memo tx [] c h = ground arith
is_deposit_tx-activate memo tx (d ∷ ds) c h =
    ground (arith, same_text-own tx, is_deposit_tx-activate memo tx ds c)

module _ (is_uuid : Text → Bool) where
  activated_tx :
      (body : Body) (balance : ℕ) (payouts : List Text) (challenges : List Challenge)
      → (handle_deposit is_uuid body balance payouts challenges).0 ≡ activated
      → is_deposit_tx body.tx_hash (handle_deposit is_uuid body balance payouts challenges).1 ≡ true
  unfolding handle_deposit
  activated_tx body balance payouts challenges h =
      grind (arith, is_deposit_tx-activate body.memo body.tx_hash challenges)

  ignored :
      (body : Body) (balance : ℕ) (payouts : List Text) (challenges : List Challenge)
      → is_deposit_tx body.tx_hash challenges ≡ true
      → (handle_deposit is_uuid body balance payouts challenges).1 ≡ challenges
  unfolding handle_deposit
  ignored body balance payouts challenges h = ground arith

  -- A transaction that has activated a challenge is ignored from then on: the handler, given it again
  -- with any body, balance and payouts, activates nothing and changes no challenge.
  pub handle_deposit-handle_deposit :
      (body again : Body) (balance later : ℕ) (payouts payouts' : List Text)
      (challenges : List Challenge)
      → (handle_deposit is_uuid body balance payouts challenges).0 ≡ activated
      → again.tx_hash ≡ body.tx_hash
      → (handle_deposit is_uuid again later payouts'
          (handle_deposit is_uuid body balance payouts challenges).1).1
        ≡ (handle_deposit is_uuid body balance payouts challenges).1
  handle_deposit-handle_deposit body again balance later payouts payouts' challenges first same =
      let cs = (handle_deposit is_uuid body balance payouts challenges).1 in
      ignored again later payouts' cs (rw same (activated_tx body balance payouts challenges first))

-- Where a first request is verified and its webhook id is not among those kept, then, whatever the
-- handler answered to it, a second request with the same id that is verified less than 600 s after
-- the first is acknowledged as a duplicate, and changes nothing.
pub deposit_webhook-deposit_webhook :
    (is_uuid : Text → Bool) (sign : Text → ℕ → Text → Text) (secrets : Secrets)
    (request again : WebhookRequest) (body body' : Body) (now later balance balance' : ℕ)
    (payouts payouts' : List Text) (s : ApiState) (webhook_id : Text)
    → verify_request sign secrets request now ≡ accepted webhook_id
    → is_seen webhook_id now s.seen ≡ false
    → verify_request sign secrets again later ≡ accepted webhook_id
    → later < now + 600
    → deposit_webhook is_uuid sign secrets again body' later balance' payouts'
        (deposit_webhook is_uuid sign secrets request body now balance payouts s).1
      ≡ (duplicate_id, (deposit_webhook is_uuid sign secrets request body now balance payouts s).1)
unfolding deposit_webhook verify_webhook
deposit_webhook-deposit_webhook is_uuid sign secrets request again body body' now later balance
      balance' payouts payouts' s webhook_id first fresh second soon =
    ground (arith, same_text-own webhook_id)
