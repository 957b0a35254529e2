-- ===== src/Embedding/Cache/Eviction.antt =====
-- What `get` and `put` do to a cache: the invariant and what is evicted.
use grasp.Prelude.{
  ℕ, suc, ◌<◌, ◌≡◌, refl, sym, ◌∙◌, subst, ◌⊎◌, inl, inr, true, false, not, none, some, List, [],
  ◌∷◌, ◌++◌, arith, leb, ◌==◌, if◌then◌else◌, ==_refl, Bool-cases, Option-cases, add_u32, add_u64,
  length, retain, length-append, lookup, insert, remove, lookup-insert, lookup-remove, is_some,
  contains-append,
}
use grasp.Core.Edge.{Text, Timestamp}
use grasp.Embedding.Cache.{
  CachedEmbedding, EmbeddingCache, cache_key, new, move_to_back, get, evict_loop, fresh_entry, put,
}
use grasp.Embedding.Cache.Keys.{
  IsWf, length-insert, length-remove, insert-OnceKeys, remove-OnceKeys, contains-retain,
  Once-retain, Once-concat, length-move_to_back,
}

module _ {F : Type 0} where
  -- A new cache has nothing in it.
  pub new-IsWf : (max_size : ℕ) → IsWf (new {F = F} max_size)
  unfolding new
  new-IsWf max_size = record {
    once = tt;
    entries = tt;
    keys = λ k. refl;
    size = refl;
    bounded = omega arith;
  }

  -- The key of an entry that is there is used: it moves to the back, its entry is replaced.
  used-IsWf :
      (c : EmbeddingCache F) (key : ℕ) (entry : CachedEmbedding F)
      → IsWf c
      → is_some (lookup key c.cache) ≡ true
      → IsWf (record c { order = move_to_back key c.order; cache = insert key entry c.cache })
  used-IsWf c key entry wf there = record {
    once =
        Once-concat key _ (Once-retain key c.order wf.once)
          (rw (contains-retain key c.order key, ==_refl key) (ground arith));
    entries = insert-OnceKeys key entry c.cache wf.entries;
    keys = λ k. ground (
      arith,
      wf.keys k,
      wf.keys key,
      contains-append (retain (λ x. not (x == key)) c.order) (key ∷ []) k,
      contains-retain key c.order k,
      lookup-insert key k entry c.cache,
    );
    size =
        rw
          (
            length-insert key entry c.cache,
            there,
            length-move_to_back key c.order wf.once (wf.keys key ∙ there),
            wf.size,
          )
          refl;
    bounded = rw (length-insert key entry c.cache, there) wf.bounded;
  }

  -- The counters are no part of the invariant.
  counters-IsWf :
      (c : EmbeddingCache F) (hits misses : ℕ)
      → IsWf c
      → IsWf (record c { hits = hits; misses = misses })
  counters-IsWf c hits misses wf = record {
    once = wf.once;
    entries = wf.entries;
    keys = wf.keys;
    size = wf.size;
    bounded = wf.bounded;
  }

  -- A read keeps the invariant: the queue and the map have the same keys, once each, and no more
  -- than the capacity.
  pub get-IsWf : (c : EmbeddingCache F) (text model : Text) → IsWf c → IsWf (get c text model).0
  unfolding get
  get-IsWf c text model wf = elim (Option-cases (lookup (cache_key model text) c.cache)) [
    | inl absent ↦ rw (absent, get) (counters-IsWf c c.hits (add_u64 c.misses 1) wf)
    | inr (entry, there) ↦
        rw (there, get)
          (used-IsWf (record c { hits = add_u64 c.hits 1 }) (cache_key model text)
            (record entry { hit_count = add_u32 entry.hit_count 1 })
            (counters-IsWf c (add_u64 c.hits 1) c.misses wf) (rw there refl))
  ]

  -- What is left when the eviction loop stops.
  record Evicted (c e : EmbeddingCache F) : Type 0 where
    wf : IsWf e
    room : (length e.cache < e.max_size) ⊎ (length e.cache ≡ 0)
    fewer : (k : ℕ) → lookup k c.cache ≡ none → lookup k e.cache ≡ none
    same : e.max_size ≡ c.max_size

  abbrev evict_first : EmbeddingCache F → ℕ → List ℕ → EmbeddingCache F
  evict_first c k rest = record c {
    cache = remove k c.cache;
    order = rest;
    evictions = add_u64 c.evictions 1;
  }

  evict_first-IsWf :
      (c : EmbeddingCache F) (k : ℕ) (rest : List ℕ)
      → IsWf (record c { order = k ∷ rest })
      → IsWf (evict_first c k rest) × (suc (length (remove k c.cache)) ≡ length c.cache)
  evict_first-IsWf c k rest wf =
      let shorter : suc (length (remove k c.cache)) ≡ length c.cache =
        length-remove k c.cache wf.entries (sym (wf.keys k) ∙ rw (==_refl k) refl) in
      (
        record {
          once = wf.once.1;
          entries = remove-OnceKeys k c.cache wf.entries;
          keys = λ j. ground (arith, wf.keys j, wf.once.0, lookup-remove k j c.cache);
          size = omega (arith, shorter, wf.size);
          bounded = omega (arith, shorter, wf.bounded);
        },
        shorter,
      )

  evict_loop-Evicted :
      (c : EmbeddingCache F) (order : List ℕ)
      → IsWf (record c { order = order })
      → Evicted c (evict_loop c order)
  unfolding evict_loop
  evict_loop-Evicted c [] wf = record { wf = wf; room = inr wf.size; fewer = λ k h. h; same = refl }
  evict_loop-Evicted c (k ∷ rest) wf = elim (Bool-cases (leb c.max_size (length c.cache))) [
    | inl full ↦
        let (wf', shorter) = evict_first-IsWf c k rest wf in
        let e = evict_loop-Evicted (evict_first c k rest) rest wf' in
        rw (full, evict_loop)
          (record {
            wf = e.wf;
            room = e.room;
            fewer = λ j h. e.fewer j (ground (arith, lookup-remove k j c.cache, h));
            same = e.same;
          })
    | inr room ↦
        rw (room, evict_loop)
          (record { wf = wf; room = inl (ground arith); fewer = λ j h. h; same = refl })
  ]

  -- A write keeps the invariant that the queue and the map have the same keys, so a cache never
  -- holds more than `max_size` entries, or one entry if `max_size` is 0.
  pub put-IsWf :
      (c : EmbeddingCache F) (now : Timestamp) (text model : Text) (embedding : List F)
      → IsWf c
      → IsWf (put c now text model embedding)
  unfolding put
  put-IsWf c now text model embedding wf =
      let key = cache_key model text in
      elim (Option-cases (lookup key c.cache)) [
        | inr (entry, there) ↦
            rw (there, put) (used-IsWf c key (fresh_entry now embedding) wf (rw there refl))
        | inl absent ↦
            let e = evict_loop c c.order in
            let evicted = evict_loop-Evicted c c.order wf in
            let gone : lookup key e.cache ≡ none = evicted.fewer key absent in
            rw (absent, put)
              (record {
                once =
                    Once-concat key e.order evicted.wf.once (rw (evicted.wf.keys key, gone) refl);
                entries =
                    insert-OnceKeys key (fresh_entry now embedding) e.cache evicted.wf.entries;
                keys = λ k. ground (
                  arith,
                  evicted.wf.keys k,
                  contains-append e.order (key ∷ []) k,
                  lookup-insert key k (fresh_entry now embedding) e.cache,
                );
                size =
                    rw
                      (
                        length-insert key (fresh_entry now embedding) e.cache,
                        gone,
                        length-append e.order (key ∷ []),
                      )
                      (omega (arith, evicted.wf.size));
                bounded =
                    rw (length-insert key (fresh_entry now embedding) e.cache, gone)
                      (elim evicted.room [
                        | inl room ↦ omega (arith, room)
                        | inr empty ↦ omega (arith, empty)
                      ]);
              })
      ]

  -- A full cache loses its first key only.
  evict_loop-one :
      (c : EmbeddingCache F) (lru : ℕ) (rest : List ℕ)
      → IsWf (record c { order = lru ∷ rest })
      → length c.cache ≡ c.max_size
      → evict_loop c (lru ∷ rest) ≡ evict_first c lru rest
  unfolding evict_loop
  evict_loop-one c lru [] wf full = ground arith
  evict_loop-one c lru (k ∷ rest) wf full =
      let shorter = (evict_first-IsWf c lru (k ∷ rest) wf).1 in
      let room : leb c.max_size (length (remove lru c.cache)) ≡ false = ground arith in
      let was_full : leb c.max_size (length c.cache) ≡ true = ground arith in
      rw (was_full, evict_loop, room) refl

  -- A write of a new key into a full cache that holds at least one entry evicts the least recently
  -- used one and nothing else, and the new key is the most recently used.
  pub put-evicts :
      (c : EmbeddingCache F) (now : Timestamp) (text model : Text) (embedding : List F) (lru : ℕ)
      (rest : List ℕ)
      → IsWf c
      → c.order ≡ lru ∷ rest
      → length c.cache ≡ c.max_size
      → lookup (cache_key model text) c.cache ≡ none
      → ((put c now text model embedding).order ≡ rest ++ cache_key model text ∷ [])
        × ((k : ℕ)
            → lookup k (put c now text model embedding).cache ≡ (
                if cache_key model text == k
                then some (fresh_entry now embedding)
                else if lru == k
                then none
                else lookup k c.cache))
  unfolding put evict_loop
  put-evicts c now text model embedding lru rest wf order full absent =
      let key = cache_key model text in
      let once_evicted : evict_loop c c.order ≡ evict_first c lru rest =
        rw order
          (evict_loop-one c lru rest (subst (λ o. IsWf (record c { order = o })) order wf) full) in
      rw (absent, put, once_evicted)
        (
          refl,
          λ k.
              rw
                (
                  lookup-insert key k (fresh_entry now embedding) (remove lru c.cache),
                  lookup-remove lru k c.cache,
                )
                refl,
        )
