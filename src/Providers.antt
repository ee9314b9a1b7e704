-- ===== src/Providers.antt =====
-- apps/api/src/providers: where the projections come from, when they are fetched, and whose they are.
pub mod Schedule
pub mod Identity
pub mod ServiceLevel
pub mod FeedStore
