-- ===== src/Ratelimit.antt =====
-- packages/mocks/openai/internal/ratelimit: token buckets, tiers, and the limiter over them.
pub mod Bucket
pub mod Dual
pub mod Tier
pub mod Limiter
