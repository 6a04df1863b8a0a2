-- ===== src/Lib.antt =====
-- BrandBlitz: a game in which users play timed challenges of brands for shares of a pool in USDC on the
-- Stellar network. This library models the parts of the program that decide scores, sessions and money.
--
-- The parts and the files that model them:
--   Usdc          apps/api/src/lib/usdc.ts: amounts as texts and as stroops, and a share of a pool.
--   Scoring       apps/api/src/services/scoring.ts: round scores in binary64 arithmetic (Numbers),
--                 their validation, the ranking (Scoring.Ranking) and the badge slugs.
--   Sessions      apps/api/src/db/queries/sessions.ts (Rows: one function for each statement),
--                 middleware/anti-cheat.ts (Guards) and routes/sessions.ts (Routes and Answers: one function
--                 for each handler; Recovery: the handler that reads). Requests runs any list of
--                 requests; Warmup.Refused is a start refused for its device.
--   Teams         apps/api/src/db/queries/challenge-teams.ts and calculateTeamPayoutAllocations of
--                 services/payout.ts.
--   Payouts       apps/api/src/services/payout.ts with db/queries/payouts.ts. Process is processPayout, which
--                 throws on every challenge that has ended, since it iterates over the object that
--                 getLeaderboard returns, and the daily run over it. What the source has behind that
--                 loop is modelled in parts: the shares of the pool, the payout rows and what the
--                 results of the batches leave of them.
--   Challenges    apps/api/src/db/queries/challenges.ts, challenge-duplication.ts and brands.ts with
--                 routes/challenge-management.ts: the row's operations; Refund is services/refund.ts
--                 with db/queries/refunds.ts, and Lifecycle runs any list of operations, with the
--                 route routes/admin/test.ts that ends a challenge.
--   Pages         getActiveChallengesSorted and getActiveChallengesCursor of db/queries/challenges.ts.
--   Referrals     apps/api/src/services/referrals.ts, middleware/referral-attribution.ts and
--                 db/queries/referrals.ts; Bonus is the bonus of a payout, db/queries/referral-payouts.ts
--                 and queues/processors/referral-bonus.processor.ts.
--   Leagues       apps/api/src/db/queries/leagues.ts, lib/week.ts and
--                 queues/processors/league.processor.ts.
--   Badges        apps/api/src/services/badges.ts with db/queries/badges.ts.
--   Questions     apps/api/src/services/questions.ts: the questions of a challenge (Answered, Rounds).
--   Tokens        apps/api/src/lib/tokens.ts and routes/auth.ts: refresh tokens and their marks (Marks,
--                 Refresh). A request is at one time, and the marks of Redis expire.
--   TwoFactor     apps/api/src/db/queries/totp.ts (Totp, with its round trip in Base32) and
--                 routes/auth.2fa.ts; Backup runs any list of requests.
--   Stellar       packages/stellar/src: sequence.ts (Sequence), client.ts (Retry), payout.ts
--                 (BatchPayout).
--   Deposits      packages/stellar/src/deposit.ts (Fetch), apps/deposit-monitor/src/index.ts (Monitor),
--                 apps/api/src/middleware/verify-webhook.ts (Verify) and routes/webhooks.ts (Webhook).
--   WsFrame       apps/api/src/lib/ws-frame.ts: encoder and decoder of websocket frames.
--   InviteCodes   apps/api/src/db/queries/invite-codes.ts, redeemInviteCode.
--   Streaks       apps/api/src/services/streaks.ts with the statements in db/queries/users.ts.
-- Prelude, Numbers and Texts are shared: tests and lists over native numbers, JavaScript numbers that
-- are rounded, and JavaScript strings as lists of code units. Tests holds concrete runs.
--
-- How the parts interact: a session's rounds are scored by Scoring, and its total by the rows; the
-- totals of a challenge are ranked by Scoring.Ranking; Payouts shares the pool by Usdc, and Teams
-- splits a team's share; Stellar.BatchPayout sends the shares with the sequence numbers of
-- Stellar.Sequence, and Payouts records what came of it, though processPayout never gets so far;
-- Referrals queues bonuses and pays them by a batch. Deposits brings the pool in and activates a
-- challenge; Challenges.Refund sends it back. A database row is a field of a state record, a handler
-- a function from a state to a reply and a state; what a handler has written before it throws stays
-- written. Time is an argument.
--
-- Fuel: the frame decoder has the buffer's length for fuel, and each round drops two bytes or more;
-- chunk_array has the list's length, and each chunk drops an item or more. A reader of pages has
-- fuel too, and needs more of it than there are rows. The other loops are structural recursion: over
-- attempts left in the retry loops, over lists elsewhere.
--
-- Parameters, for code that is not in the repository: localeCompare of the runtime's locale data, the
-- HMACs of the crypto module and the hashes of bcrypt, the check of a UUID by the schema library, the
-- Stellar SDK's submission of a transaction, the network's base sequence and events, the search for a
-- depositor and the payment of a refund, the numbers of Math.random, the signing and the checking of a
-- token by jsonwebtoken, and the database's fraud trigger.
--
-- Not modelled: the web client, administration, reporting queries, notifications, access tokens and
-- the other records of the API; logs, metrics and caches of what is modelled; the escrow contract; the
-- weekly points of the leagues, which are sums in decimal SQL.
pub mod Prelude
pub mod Numbers
pub mod Texts
pub mod Usdc
pub mod Scoring
pub mod Teams
pub mod WsFrame
pub mod Stellar
pub mod Sessions
pub mod Payouts
pub mod Challenges
pub mod Pages
pub mod Referrals
pub mod Leagues
pub mod Questions
pub mod Badges
pub mod Tokens
pub mod TwoFactor
pub mod InviteCodes
pub mod Streaks
pub mod Deposits
pub mod Tests
