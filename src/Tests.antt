-- ===== src/Tests.antt =====
-- Concrete runs at which the properties' hypotheses hold.
mod Sessions
mod Money
mod Frames
mod Stellar
mod Services
mod Referrals
mod Leagues
mod Challenges
mod Tokens
mod TwoFactor
mod Badges
mod Questions
