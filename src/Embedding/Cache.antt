-- ===== src/Embedding/Cache.antt =====
-- `EmbeddingCache` of crates/mentedb-embedding/src/cache.rs, the LRU cache of embeddings. A text is
-- the list of its UTF-8 bytes, `F` the type of the 32-bit floats and `now` the clock's reading.
-- `hits`, `misses` and `evictions` wrap around at 2 ^ 64 and `hit_count` at 2 ^ 32.
pub mod Keys
pub mod Eviction
pub mod Reads
use grasp.Prelude.{
  ℕ, ◌*◌, ◌%◌, not, Option, none, some, List, [], ◌∷◌, ◌++◌, leb, ◌==◌, if◌then◌else◌, add_u32,
  add_u64, length, retain, HashMap, lookup, insert, remove,
}
use Prim.Native.Nat.{bit_xor}
use grasp.Core.Edge.{Text, Timestamp}

pub record CacheStats : Type 0 where
  pub hits : ℕ
  pub misses : ℕ
  pub size : ℕ
  pub max_size : ℕ
  pub evictions : ℕ

pub record CachedEmbedding (F : Type 0) : Type 0 where
  pub embedding : List F
  pub created_at : Timestamp
  pub hit_count : ℕ

pub record EmbeddingCache (F : Type 0) : Type 0 where
  pub max_size : ℕ
  pub cache : HashMap (CachedEmbedding F)
  pub order : List ℕ
  pub hits : ℕ
  pub misses : ℕ
  pub evictions : ℕ

-- One byte of FNV-1a.
abbrev pub fnv_step : ℕ → ℕ → ℕ
fnv_step hash byte = (bit_xor hash byte * 1099511628211) % 18446744073709551616

unfoldable pub fnv_bytes : ℕ → List ℕ → ℕ
fnv_bytes hash [] = hash
fnv_bytes hash (byte ∷ bytes) = fnv_bytes (fnv_step hash byte) bytes

unfoldable pub cache_key : Text → Text → ℕ
unfolding fnv_bytes
cache_key model text = fnv_bytes (fnv_step (fnv_bytes 14695981039346656037 model) 255) text

-- `order.retain(|k| *k != key); order.push_back(key)`.
abbrev pub move_to_back : ℕ → List ℕ → List ℕ
move_to_back key order = retain (λ k. not (k == key)) order ++ key ∷ []

module _ {F : Type 0} where
  unfoldable pub new : ℕ → EmbeddingCache F
  new max_size = record {
    max_size = max_size;
    cache = [];
    order = [];
    hits = 0;
    misses = 0;
    evictions = 0;
  }

  unfoldable pub default_size : EmbeddingCache F
  unfolding new
  default_size = new 10000

  unfoldable pub get : EmbeddingCache F → Text → Text → EmbeddingCache F × Option (List F)
  get c text model =
      let key = cache_key model text in
      elim (lookup key c.cache) [
        | some entry ↦ (
          record c {
            hits = add_u64 c.hits 1;
            order = move_to_back key c.order;
            cache = insert key (record entry { hit_count = add_u32 entry.hit_count 1 }) c.cache;
          },
          some entry.embedding,
        )
        | none ↦ (record c { misses = add_u64 c.misses 1 }, none)
      ]

  -- The eviction loop, by recursion on the queue that it shortens.
  unfoldable pub evict_loop : EmbeddingCache F → List ℕ → EmbeddingCache F
  evict_loop c [] = record c { order = [] }
  evict_loop c (evict_key ∷ rest) =
      if leb c.max_size (length c.cache)
      then evict_loop
          (record c {
            cache = remove evict_key c.cache;
            order = rest;
            evictions = add_u64 c.evictions 1;
          })
          rest
      else record c { order = evict_key ∷ rest }

  abbrev pub fresh_entry : Timestamp → List F → CachedEmbedding F
  fresh_entry now embedding = record { embedding = embedding; created_at = now; hit_count = 0 }

  unfoldable pub put : EmbeddingCache F → Timestamp → Text → Text → List F → EmbeddingCache F
  put c now text model embedding =
      let key = cache_key model text in
      elim (lookup key c.cache) [
        | some _ ↦ record c {
          order = move_to_back key c.order;
          cache = insert key (fresh_entry now embedding) c.cache;
        }
        | none ↦
            let evicted = evict_loop c c.order in
            record evicted {
              cache = insert key (fresh_entry now embedding) evicted.cache;
              order = evicted.order ++ key ∷ [];
            }
      ]

  unfoldable pub stats : EmbeddingCache F → CacheStats
  stats c = record {
    hits = c.hits;
    misses = c.misses;
    size = length c.cache;
    max_size = c.max_size;
    evictions = c.evictions;
  }

  unfoldable pub clear : EmbeddingCache F → EmbeddingCache F
  clear c = record c { cache = []; order = [] }
