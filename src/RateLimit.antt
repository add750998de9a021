-- ===== src/RateLimit.antt =====
-- ai-provider/internal/security/rate_limiter.go. The four limiters, the universal limiter that
-- chooses one of them, and the service of named limiters. Times and durations are numbers of
-- nanoseconds, and `time.Now()` is an argument of each call. Counts are not negative.
pub mod Info
pub mod FixedWindow
pub mod SlidingWindow
pub mod LeakyBucket
pub mod TokenBucket
pub mod Universal
pub mod Service
mod Tests
