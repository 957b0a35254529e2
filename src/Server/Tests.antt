-- ===== src/Server/Tests.antt =====
-- The rate limiter at concrete inputs. Floats are tenths of natural numbers here.
use grasp.Prelude.{◌+◌, ◌≤◌, ◌≡◌, refl, [], ◌∷◌, arith, ◌==◌, replicate, retain}
use grasp.Core.Samples.{doubles}
use grasp.Server.RateLimit.{Bucket, new_bucket, refill, new}
use grasp.Server.RateLimit.Grants.{serve, refills, serve-bounds, serve_after_pause}
use grasp.Server.RateLimit.Addresses.{answer_all, answer_all-alone}

-- Three tokens at most, two of them back in a second.
abbrev bucket : Bucket
bucket = new_bucket 0 3 2

abbrev emptied : Bucket
emptied = record bucket { tokens = 0 }

-- Of three requests to an empty bucket, the last of them after a second, one is granted.
serve-bounds_example :
    ((serve doubles (0 ∷ 0 ∷ 1000000000 ∷ []) emptied).1
        + (serve doubles (0 ∷ 0 ∷ 1000000000 ∷ []) emptied).0.tokens
      ≤ 0 + refills doubles (0 ∷ 0 ∷ 1000000000 ∷ []) emptied)
    × ((serve doubles (0 ∷ 0 ∷ 1000000000 ∷ []) emptied).0.tokens ≤ 3)
serve-bounds_example = serve-bounds doubles (0 ∷ 0 ∷ 1000000000 ∷ []) emptied (omega arith)

two_back : refill doubles 1000000000 emptied ≡ 2
unfolding refill
two_back = refl

serve_after_pause_example : (serve doubles (replicate 2 1000000000) emptied).1 ≡ 2
serve_after_pause_example =
    serve_after_pause doubles (λ rate. omega arith) 1000000000 2 emptied (omega (arith, two_back))
      (omega arith) (omega (arith, two_back))

answer_all-alone_example :
    retain (λ a. a.0 == 5) (answer_all doubles ((0, 5) ∷ (1, 6) ∷ (2, 5) ∷ []) (new 1 1)).1
    ≡ (answer_all doubles (retain (λ r. r.1 == 5) ((0, 5) ∷ (1, 6) ∷ (2, 5) ∷ [])) (new 1 1)).1
answer_all-alone_example = answer_all-alone doubles 5 ((0, 5) ∷ (1, 6) ∷ (2, 5) ∷ []) (new 1 1)
