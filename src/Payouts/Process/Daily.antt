-- ===== src/Payouts/Process/Daily.antt =====
-- services/payout of the API: what a daily run reports.
