-- ===== src/Embedding/Tests.antt =====
-- A cache of one entry, and the theorems about caches at it. Floats are natural numbers here.
use grasp.Prelude.{ℕ, ◌≡◌, refl, none, some, [], ◌∷◌, ◌++◌, ◌==◌, if◌then◌else◌, length, lookup}
use grasp.Embedding.Cache.{
  EmbeddingCache, cache_key, fnv_bytes, new, get, put, evict_loop, fresh_entry,
}
use grasp.Embedding.Cache.Keys.{IsWf}
use grasp.Embedding.Cache.Eviction.{new-IsWf, put-IsWf, put-evicts}
use grasp.Embedding.Cache.Reads.{get-put}

abbrev one_entry : EmbeddingCache ℕ
one_entry = put (new 1) 10 (104 ∷ []) (109 ∷ []) (1 ∷ 2 ∷ [])

abbrev key_h : ℕ
key_h = cache_key (109 ∷ []) (104 ∷ [])

one_entry-IsWf : IsWf one_entry
one_entry-IsWf = put-IsWf (new 1) 10 (104 ∷ []) (109 ∷ []) (1 ∷ 2 ∷ []) (new-IsWf 1)

put-IsWf_example : IsWf one_entry
put-IsWf_example = put-IsWf (new 1) 10 (104 ∷ []) (109 ∷ []) (1 ∷ 2 ∷ []) (new-IsWf 1)

get-put_example : (get one_entry (104 ∷ []) (109 ∷ [])).1 ≡ some (1 ∷ 2 ∷ [])
get-put_example = get-put (new 1) 10 (104 ∷ []) (109 ∷ []) (1 ∷ 2 ∷ [])

one_entry_order : one_entry.order ≡ key_h ∷ []
unfolding put new evict_loop cache_key fnv_bytes
one_entry_order = refl

one_entry_full : length one_entry.cache ≡ one_entry.max_size
unfolding put new evict_loop cache_key fnv_bytes
one_entry_full = refl

one_entry_absent : lookup (cache_key (109 ∷ []) (105 ∷ [])) one_entry.cache ≡ none
unfolding put new evict_loop cache_key fnv_bytes
one_entry_absent = refl

put-evicts_example :
    ((put one_entry 20 (105 ∷ []) (109 ∷ []) (3 ∷ [])).order
      ≡ [] ++ cache_key (109 ∷ []) (105 ∷ []) ∷ [])
    × ((k : ℕ)
        → lookup k (put one_entry 20 (105 ∷ []) (109 ∷ []) (3 ∷ [])).cache ≡ (
            if cache_key (109 ∷ []) (105 ∷ []) == k
            then some (fresh_entry 20 (3 ∷ []))
            else if key_h == k
            then none
            else lookup k one_entry.cache))
put-evicts_example =
    put-evicts one_entry 20 (105 ∷ []) (109 ∷ []) (3 ∷ []) key_h [] one_entry-IsWf one_entry_order
      one_entry_full one_entry_absent
