-- ===== src/Server/RateLimit/Addresses.antt =====
-- What an address is granted depends on its own requests only.
use grasp.Prelude.{
  ℕ, ◌≡◌, refl, sym, ap, ◌∙◌, subst, inl, inr, Bool, false, List, [], ◌∷◌, ◌==◌, ==_iff, ==_refl,
  Bool-cases, retain, lookup, lookup-insert,
}
use grasp.Core.Float64.{Float64}
use grasp.Server.RateLimit.{new_bucket, try_consume, RateLimiter, bucket_or, allow}

module _ {D : Type 0} (fl : Float64 D) where
  -- The limiter after requests, each an instant and an address, and the answers to them.
  abbrev pub answer_all : List (ℕ × ℕ) → RateLimiter → RateLimiter × List (ℕ × Bool)
  answer_all [] limiter = (limiter, [])
  answer_all ((now, ip) ∷ requests) limiter =
      let (limiter', allowed) = allow fl now ip limiter in
      let (limiter'', answers) = answer_all requests limiter' in
      (limiter'', (ip, allowed) ∷ answers)

  -- Limiters that agree on an address.
  record Agree (ip : ℕ) (l l' : RateLimiter) : Type 0 where
    same_bucket : lookup ip l.buckets ≡ lookup ip l'.buckets
    same_max : l.max_tokens ≡ l'.max_tokens
    same_rate : l.refill_rate ≡ l'.refill_rate

  allow-other :
      (now ip other : ℕ) (l l' : RateLimiter)
      → (other == ip) ≡ false
      → Agree ip l l'
      → Agree ip (allow fl now other l).0 l'
  unfolding allow
  allow-other now ip other l l' differs agree = record {
    same_bucket = lookup-insert other ip _ l.buckets ∙ rw differs agree.same_bucket;
    same_max = agree.same_max;
    same_rate = agree.same_rate;
  }

  allow-same :
      (now ip : ℕ) (l l' : RateLimiter)
      → Agree ip l l'
      → Agree ip (allow fl now ip l).0 (allow fl now ip l').0
        × ((allow fl now ip l).1 ≡ (allow fl now ip l').1)
  unfolding allow
  allow-same now ip l l' agree =
      let bucket = bucket_or (lookup ip l.buckets) (new_bucket now l.max_tokens l.refill_rate) in
      let bucket' =
        bucket_or (lookup ip l'.buckets) (new_bucket now l'.max_tokens l'.refill_rate) in
      let same : bucket ≡ bucket' = rw (agree.same_bucket, agree.same_max, agree.same_rate) refl in
      let tried = ap (try_consume fl now) same in
      (
        record {
          same_bucket =
              lookup-insert ip ip (try_consume fl now bucket).0 l.buckets
              ∙ (rw (==_refl ip, tried) refl
                  ∙ sym (lookup-insert ip ip (try_consume fl now bucket').0 l'.buckets));
          same_max = agree.same_max;
          same_rate = agree.same_rate;
        },
        ap (λ r. r.1) tried,
      )

  answer_all-Agree :
      (ip : ℕ) (requests : List (ℕ × ℕ)) (l l' : RateLimiter)
      → Agree ip l l'
      → retain (λ a. a.0 == ip) (answer_all requests l).1
        ≡ (answer_all (retain (λ r. r.1 == ip) requests) l').1
  answer_all-Agree ip [] l l' agree = refl
  answer_all-Agree ip ((now, other) ∷ requests) l l' agree = elim (Bool-cases (other == ip)) [
    | inl own ↦
        let (later, same) =
          subst
            (λ x.
              Agree ip (allow fl now x l).0 (allow fl now x l').0
              × ((allow fl now x l).1 ≡ (allow fl now x l').1))
            (sym ((==_iff other ip).0 own)) (allow-same now ip l l' agree) in
        let rest =
          answer_all-Agree ip requests (allow fl now other l).0 (allow fl now other l').0 later in
        rw (own, same, rest) refl
    | inr differs ↦ rw differs (
        answer_all-Agree ip requests (allow fl now other l).0 l'
          (allow-other now ip other l l' differs agree))
  ]

  -- Among any requests, those of an address get the answers that they get when no other address
  -- sends any.
  pub answer_all-alone :
      (ip : ℕ) (requests : List (ℕ × ℕ)) (limiter : RateLimiter)
      → retain (λ a. a.0 == ip) (answer_all requests limiter).1
        ≡ (answer_all (retain (λ r. r.1 == ip) requests) limiter).1
  answer_all-alone ip requests limiter =
      answer_all-Agree ip requests limiter limiter
        (record { same_bucket = refl; same_max = refl; same_rate = refl })
