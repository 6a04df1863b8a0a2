-- ===== src/Payouts/Process.antt =====
-- services/payout of the API: `processPayout` up to where it stops, and the daily run over the
-- challenges that are paid in batches.
pub mod Daily
use brand_blitz.Prelude.{
  ℕ, Bool, true, false, ◌&&◌, List, [], ◌∷◌, Option, none, some, keep, if◌then◌else◌,
}
use brand_blitz.Challenges.{ChallengeRow, is_ended, is_null}
use brand_blitz.Challenges.Refund.{challenge_by_id}

-- How a call ends. It has written nothing by then.
pub data PayoutEnd : Type 0 where
  threw returned : PayoutEnd

-- A challenge that is not found makes the call throw. For one that has ended, the loop over what
-- getLeaderboard gives iterates over an object, `{ sessions, nextCursor }`, and throws a TypeError before
-- anything is written; what the source has behind that loop is not reached.
unfoldable pub process_payout : Option ChallengeRow → PayoutEnd
process_payout none = threw
process_payout (some c) = if is_ended c.status then threw else returned

-- The lock of the run, the challenges' ids in the order of their creation, their rows, and which of
-- them are paid in batches.
pub record DailyRun : Type 0 where
  pub locked : Bool
  pub ids : List ℕ
  pub rows : ℕ → Option ChallengeRow
  pub batched : ℕ → Bool

pub record RunReport : Type 0 where
  pub processed_challenges : List ℕ
  pub failed_challenges : List ℕ

abbrev pub is_due : DailyRun → ℕ → Bool
is_due d id = elim (d.rows id) [
  | none ↦ false
  | some c ↦ is_ended c.status && (d.batched id && is_null c.deleted_at)
]

unfoldable pub get_ended_batched_challenges : DailyRun → List ℕ
get_ended_batched_challenges d = keep (is_due d) d.ids

abbrev pub reported : ℕ → PayoutEnd → RunReport → RunReport
reported id returned r = record r { processed_challenges = id ∷ r.processed_challenges }
reported id threw r = record r { failed_challenges = id ∷ r.failed_challenges }

abbrev pub empty_report : RunReport
empty_report = record { processed_challenges = []; failed_challenges = [] }

unfoldable pub process_each : (ℕ → Option ChallengeRow) → List ℕ → RunReport
process_each rows [] = empty_report
process_each rows (id ∷ ids) =
    let rest = process_each rows ids in reported id (process_payout (challenge_by_id id rows)) rest

-- The lock is taken where no other run has it, and given back at the end.
unfoldable pub process_batch_payout : DailyRun → RunReport × DailyRun
process_batch_payout d =
    let report = process_each d.rows (get_ended_batched_challenges d) in
    if d.locked then (empty_report, d) else (report, record d { locked = false })
