-- ===== src/Tests/Services.antt =====
-- Teams, invite codes, streaks and deposits.
use mathlib.Core.Option.{some-injective}
use brand_blitz.Prelude.{
  subst, ◌+◌, get_elem?, ℕ, ◌≡◌, refl, Bool, true, false, List, [], ◌∷◌, Option, none, some, arith,
  replicate, ◌==◌, if◌then◌else◌,
}
use brand_blitz.Texts.{Text, codes, has_content, same_text}
use brand_blitz.Scoring.{natural}
use brand_blitz.InviteCodes.{Invites, redeem_all}
use brand_blitz.InviteCodes.Redeem.{Counted, redeem_all-Counted}
use brand_blitz.Streaks.{StreakState, play_all, update_streak}
use brand_blitz.Streaks.Runs.{IsRun, history_of, play_all-IsRun}
use brand_blitz.Deposits.{DepositEvent}
use brand_blitz.Deposits.Monitor.{Fetched, MonitorState, poll_all}
use brand_blitz.Deposits.Cursor.{Listed, logged, poll_all-acknowledged}
use brand_blitz.Deposits.Fetch.{RpcEvent, TxReply, fetch_deposit_events, validate_deposit_memo}
use brand_blitz.Deposits.Verify.{Secrets, WebhookRequest, verify_request}
use brand_blitz.Challenges.{pending_deposit}
use brand_blitz.Deposits.Webhook.{Challenge, Body, duplicate_id, ApiState, deposit_webhook}
use brand_blitz.Deposits.Replay.{deposit_webhook-deposit_webhook}

abbrev invites : Invites
invites = record {
  code = some (record {
    brand_id = 1;
    challenge_id = none;
    in_force = true;
    expires_at = some 100;
    max_uses = some 1;
    use_count = 0;
  });
  redemptions = [];
  waitlist = λ user. some (record { is_active = false; activated_at = none });
  audit = [];
}

redeem_all-Counted_example : Counted (redeem_all ((7, 50) ∷ (8, 60) ∷ []) invites)
redeem_all-Counted_example = redeem_all-Counted ((7, 50) ∷ (8, 60) ∷ []) invites (refl, refl, tt)

abbrev newcomer : StreakState
newcomer = record {
  streak = 0;
  last_play_day = none;
  streak_repairs_this_month = 0;
  streak_repair_available = false;
}

abbrev days : List ℕ
days = 10 ∷ 12 ∷ 13 ∷ 13 ∷ []

play_all-IsRun_example : IsRun (history_of days []) 13 (play_all days newcomer).streak
unfolding play_all update_streak
play_all-IsRun_example = play_all-IsRun days newcomer 13 (ground arith) refl refl

abbrev deposit : DepositEvent
deposit = record { tx_hash = codes "ab"; amount = codes "5"; memo = codes "m"; ledger = 12 }

-- The events of two transactions, of which one is not found.
abbrev rpc_events : List RpcEvent
rpc_events =
    record { tx_hash = codes "zz"; value = some (codes "7"); ledger = 11; has_closed_at = true }
    ∷ record { tx_hash = codes "ab"; value = some (codes "5"); ledger = 12; has_closed_at = true }
    ∷ []

abbrev get_transaction : Text → Option TxReply
get_transaction tx =
    if same_text tx (codes "ab")
    then some (record { is_success = true; memo = some (codes "m") })
    else none

abbrev fetch_all : ℕ → Option Fetched
fetch_all from =
    some (record { events = fetch_deposit_events get_transaction rpc_events; latest_ledger = 20 })

-- The API acknowledges the second call.
abbrev second_time : DepositEvent → ℕ → Bool × ℕ
second_time event calls = (calls == 1, calls + 1)

abbrev monitor : MonitorState (ℕ × List DepositEvent)
monitor = record { last_ledger = some 10; receiver = (0, []) }

fetch_all-deposit :
    (from : ℕ) (reply : Fetched)
    → fetch_all from ≡ some reply
    → get_elem? reply.events 0 ≡ some deposit
unfolding fetch_deposit_events validate_deposit_memo same_text has_content
fetch_all-deposit from reply found =
    subst (λ r. get_elem? r.events 0 ≡ some deposit) (some-injective _ _ found) refl

poll_all-acknowledged_example :
    Listed deposit (poll_all (logged second_time) (fetch_all ∷ fetch_all ∷ []) monitor).receiver.1
unfolding poll_all fetch_deposit_events validate_deposit_memo same_text has_content logged
poll_all-acknowledged_example =
    poll_all-acknowledged second_time (fetch_all ∷ fetch_all ∷ []) monitor deposit
      (
        (λ from reply found above below. (0, fetch_all-deposit from reply found)),
        ((λ from reply found above below. (0, fetch_all-deposit from reply found)), tt),
      )
      (ground arith) (ground arith) (ground arith)

abbrev hash : Text
hash = replicate 64 b'a'

abbrev any_uuid : Text → Bool
any_uuid memo = true

abbrev body : Body
body = record { memo = codes "m"; tx_hash = hash; amount = none }

abbrev awaiting : List Challenge
awaiting =
    record {
      deposit_memo = codes "m";
      status = pending_deposit;
      pool_amount_usdc = codes "0.0000005";
      deposit_tx = none;
    }
    ∷ []

abbrev constant_sign : Text → ℕ → Text → Text
constant_sign secret timestamp raw_body = hash

abbrev secrets : Secrets
secrets = record { current = codes "s"; pending = none }

abbrev request : WebhookRequest
request = record {
  signature =
      some (codes "sha256=aaaaaaaaaaaaaaaaaaaaaaaaaaaaaaaaaaaaaaaaaaaaaaaaaaaaaaaaaaaaaaaa");
  timestamp = some (natural 1000);
  webhook_id = some (codes "id");
  raw_body = some [];
}

abbrev api : ApiState
api = record { seen = []; challenges = awaiting }

deposit_webhook-deposit_webhook_example :
    deposit_webhook any_uuid constant_sign secrets request body 1100 9 []
      (deposit_webhook any_uuid constant_sign secrets request body 1000 0 [] api).1
    ≡ (duplicate_id, (deposit_webhook any_uuid constant_sign secrets request body 1000 0 [] api).1)
unfolding verify_request same_text has_content
deposit_webhook-deposit_webhook_example =
    deposit_webhook-deposit_webhook any_uuid constant_sign secrets request request body body 1000
      1100 0 9 [] [] api (codes "id") refl refl refl (ground arith)
