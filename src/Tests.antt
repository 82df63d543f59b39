-- ===== src/Tests.antt =====
-- Runs of the program on concrete inputs, and the theorems at inputs that meet their hypotheses.
mod Fixtures
mod Session
mod Recovery
mod Profile
mod RateLimit
mod Admin
mod Realtime
mod Oauth
mod Files
mod Api
mod Listings
mod Seeding
mod Settings
mod Samples
mod Middleware
mod Mail
mod Schemas
mod Reports
mod Clients
