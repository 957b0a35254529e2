-- ===== src/Server/RateLimit/Grants.antt =====
-- How many requests a bucket grants: no more than it holds and is refilled with, and as many as it
-- holds when they come at once.
use grasp.Prelude.{
  ℕ, zero, suc, ◌+◌, ◌-◌, ◌≤◌, ◌<◌, min, ◌≡◌, refl, ap, ◌∙◌, inl, inr, true, false, List, [], ◌∷◌,
  arith, ltb, if◌then◌else◌, Bool-cases, add_u32, replicate,
}
use grasp.Core.Float64.{Float64}
use grasp.Server.RateLimit.{Bucket, refill, refilled, try_consume}

module _ {D : Type 0} (fl : Float64 D) where
  -- The bucket after requests at the given instants, and how many of them it granted.
  abbrev pub serve : List ℕ → Bucket → Bucket × ℕ
  serve [] b = (b, 0)
  serve (now ∷ times) b =
      let (b', granted) = try_consume fl now b in
      let (b'', more) = serve times b' in (b'', (if granted then 1 else 0) + more)

  -- The refills that these requests find due.
  abbrev pub refills : List ℕ → Bucket → ℕ
  refills [] b = 0
  refills (now ∷ times) b = refill fl now b + refills times (try_consume fl now b).0

  refilled-max : (now : ℕ) (b : Bucket) → (refilled fl now b).max_tokens ≡ b.max_tokens
  unfolding refilled
  refilled-max now b = elim (Bool-cases (ltb 0 (refill fl now b))) [
    | inl due ↦ rw (due, refilled) refl
    | inr early ↦ rw (early, refilled) refl
  ]

  refilled-tokens-le :
      (now : ℕ) (b : Bucket)
      → ((refilled fl now b).tokens ≤ b.tokens + refill fl now b)
        × (b.tokens ≤ b.max_tokens → (refilled fl now b).tokens ≤ b.max_tokens)
  unfolding refilled
  refilled-tokens-le now b = elim (Bool-cases (ltb 0 (refill fl now b))) [
    | inl due ↦ rw (due, refilled) (omega arith, λ h. omega arith)
    | inr early ↦ rw (early, refilled) (omega arith, λ h. h)
  ]

  -- A request takes one token, if there is one.
  record Spends (now : ℕ) (b : Bucket) : Type 0 where
    same_max : (try_consume fl now b).0.max_tokens ≡ b.max_tokens
    within : b.tokens ≤ b.max_tokens → (try_consume fl now b).0.tokens ≤ b.max_tokens
    paid :
        (try_consume fl now b).0.tokens + (if (try_consume fl now b).1 then 1 else 0)
        ≤ b.tokens + refill fl now b

  try_consume-Spends : (now : ℕ) (b : Bucket) → Spends now b
  unfolding try_consume
  try_consume-Spends now b =
      let (some_more, below) = refilled-tokens-le now b in
      elim (Bool-cases (ltb 0 (refilled fl now b).tokens)) [
        | inl left ↦ record {
          same_max = rw (left, try_consume) (refilled-max now b);
          within = rw (left, try_consume) (λ h. omega (arith, below h));
          paid = rw (left, try_consume) (ground arith);
        }
        | inr spent ↦ record {
          same_max = rw (spent, try_consume) (refilled-max now b);
          within = rw (spent, try_consume) below;
          paid = rw (spent, try_consume) (omega arith);
        }
      ]

  serve-paid :
      (times : List ℕ) (b : Bucket)
      → ((serve times b).1 + (serve times b).0.tokens ≤ b.tokens + refills times b)
        × (b.tokens ≤ b.max_tokens → (serve times b).0.tokens ≤ b.max_tokens)
  serve-paid [] b = (omega arith, λ h. h)
  serve-paid (now ∷ times) b =
      let s = try_consume-Spends now b in
      let (paid, within) = serve-paid times (try_consume fl now b).0 in
      (
        omega (arith, s.paid),
        λ h. ground (arith, within (ground (arith, s.same_max, s.within h)), s.same_max),
      )

  -- From a bucket that holds at most its maximum, the requests granted and the tokens left at the
  -- end are together no more than the tokens that the bucket held and the refills that the requests
  -- found due, whatever their instants; and the tokens left are at most the maximum.
  pub serve-bounds :
      (times : List ℕ) (b : Bucket)
      → b.tokens ≤ b.max_tokens
      → ((serve times b).1 + (serve times b).0.tokens ≤ b.tokens + refills times b)
        × ((serve times b).0.tokens ≤ b.max_tokens)
  serve-bounds times b h = let (paid, within) = serve-paid times b in (paid, within h)

  -- A request that finds a token after the refill takes it.
  takes :
      (now : ℕ) (b b' : Bucket)
      → refilled fl now b ≡ b'
      → 0 < b'.tokens
      → try_consume fl now b ≡ (record b' { tokens = b'.tokens - 1 }, true)
  unfolding try_consume
  takes now b b' e some_left =
      let left : ltb 0 b'.tokens ≡ true = ground arith in rw (e, try_consume, left) refl

  refilled-early : (now : ℕ) (b : Bucket) → refill fl now b ≡ 0 → refilled fl now b ≡ b
  unfolding refilled
  refilled-early now b e =
      let early : ltb 0 (refill fl now b) ≡ false = ground arith in rw (early, refilled) refl

  refilled-due :
      (now : ℕ) (b : Bucket)
      → 0 < refill fl now b
      → refilled fl now b ≡ record b {
        tokens = min (add_u32 b.tokens (refill fl now b)) b.max_tokens;
        last_refill = now;
      }
  unfolding refilled
  refilled-due now b e =
      let due : ltb 0 (refill fl now b) ≡ true = ground arith in rw (due, refilled) refl

  module _ (still : (rate : ℕ) → fl.as_u32 (fl.mul (fl.as_secs 0) (fl.of_nat rate)) ≡ 0) where
    -- Requests at the instant of the last refill, as many as there are tokens, are all granted.
    serve_at_once :
        (now k : ℕ) (b : Bucket)
        → b.last_refill ≡ now
        → k ≤ b.tokens
        → (serve (replicate k now) b).1 ≡ k
    unfolding refill
    serve_at_once now zero b same enough = refl
    serve_at_once now (suc k) b same enough =
        let none_due : refill fl now b ≡ 0 =
          ap (λ n. fl.as_u32 (fl.mul (fl.as_secs n) (fl.of_nat b.refill_rate)))
            (omega (arith, same))
          ∙ still b.refill_rate in
        let taken = takes now b b (refilled-early now b none_due) (omega arith) in
        rw taken (
          omega
            (arith, serve_at_once now k (record b { tokens = b.tokens - 1 }) same (omega arith)))

    -- Where no time is worth no token, and the tokens do not overflow 32 bits: when a pause is worth
    -- at least `k` tokens, and the bucket can hold `k`, then `k` requests that come at once after it
    -- are all granted.
    pub serve_after_pause :
        (now k : ℕ) (b : Bucket)
        → k ≤ refill fl now b
        → k ≤ b.max_tokens
        → b.tokens + refill fl now b < 4294967296
        → (serve (replicate k now) b).1 ≡ k
    serve_after_pause now zero b due holds fits = refl
    serve_after_pause now (suc k) b due holds fits =
        let full : Bucket = record b {
          tokens = min (add_u32 b.tokens (refill fl now b)) b.max_tokens;
          last_refill = now;
        } in
        let added : add_u32 b.tokens (refill fl now b) ≡ b.tokens + refill fl now b = omega arith in
        let taken = takes now b full (refilled-due now b (omega arith)) (omega (arith, added)) in
        rw taken (
          omega (
            arith,
            serve_at_once now k (record full { tokens = full.tokens - 1 }) refl
                (omega (arith, added)),
          ))
