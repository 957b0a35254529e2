-- ===== src/Server/RateLimit.antt =====
-- The token buckets of crates/mentedb-server/src/rate_limit.rs. An `Instant` is a number of
-- nanoseconds, an address a number. The mutex is left out: requests follow each other.
pub mod Grants
pub mod Addresses
use grasp.Prelude.{
  ℕ, ◌-◌, min, Bool, true, false, Option, none, some, [], ltb, if◌then◌else◌, as_u32, add_u32,
  HashMap, lookup, insert,
}
use grasp.Core.Float64.{Float64}

pub record Bucket : Type 0 where
  pub tokens : ℕ
  pub last_refill : ℕ
  pub max_tokens : ℕ
  pub refill_rate : ℕ

-- `Bucket::new` at the instant `now`.
abbrev pub new_bucket : (now max_tokens refill_rate : ℕ) → Bucket
new_bucket now max_tokens refill_rate = record {
  tokens = max_tokens;
  last_refill = now;
  max_tokens = max_tokens;
  refill_rate = refill_rate;
}

module _ {D : Type 0} (fl : Float64 D) where
  -- The tokens that the time since the last refill is worth. `duration_since` stops at 0.
  unfoldable pub refill : ℕ → Bucket → ℕ
  refill now b = fl.as_u32 (fl.mul (fl.as_secs (now - b.last_refill)) (fl.of_nat b.refill_rate))

  unfoldable pub refilled : ℕ → Bucket → Bucket
  refilled now b =
      if ltb 0 (refill now b)
      then record b {
        tokens = min (add_u32 b.tokens (refill now b)) b.max_tokens;
        last_refill = now;
      }
      else b

  unfoldable pub try_consume : ℕ → Bucket → Bucket × Bool
  try_consume now b =
      let b' = refilled now b in
      if ltb 0 b'.tokens then (record b' { tokens = b'.tokens - 1 }, true) else (b', false)

pub record RateLimiter : Type 0 where
  pub buckets : HashMap Bucket
  pub max_tokens : ℕ
  pub refill_rate : ℕ

abbrev pub new : (max_tokens refill_rate : ℕ) → RateLimiter
new max_tokens refill_rate = record {
  buckets = [];
  max_tokens = max_tokens;
  refill_rate = refill_rate;
}

abbrev pub default_limiter : RateLimiter
default_limiter = new 100 10

-- `buckets.entry(ip).or_insert_with(..)`
abbrev pub bucket_or : Option Bucket → Bucket → Bucket
bucket_or none b = b
bucket_or (some b) b' = b

module _ {D : Type 0} (fl : Float64 D) where
  -- The locked part of `call`: whether the request from `ip` is passed on.
  unfoldable pub allow : ℕ → ℕ → RateLimiter → RateLimiter × Bool
  allow now ip limiter =
      let bucket =
        bucket_or (lookup ip limiter.buckets)
          (new_bucket now limiter.max_tokens limiter.refill_rate) in
      let (bucket', allowed) = try_consume fl now bucket in
      (record limiter { buckets = insert ip bucket' limiter.buckets }, allowed)
