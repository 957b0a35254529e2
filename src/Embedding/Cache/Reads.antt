-- ===== src/Embedding/Cache/Reads.antt =====
-- What a read of the cache answers after a write and after another read.
use grasp.Prelude.{
  ◌≡◌, refl, sym, ◌∙◌, inl, inr, Option, none, some, List, ◌==◌, ==_iff, ==_refl, Bool-cases,
  Option-cases, add_u32, HashMap, lookup, insert, lookup-insert,
}
use grasp.Core.Edge.{Text, Timestamp}
use grasp.Embedding.Cache.{
  CachedEmbedding, EmbeddingCache, cache_key, get, evict_loop, fresh_entry, put,
}

module _ {F : Type 0} where
  abbrev embedding_of : Option (CachedEmbedding F) → Option (List F)
  embedding_of none = none
  embedding_of (some entry) = some entry.embedding

  get-lookup :
      (c : EmbeddingCache F) (text model : Text)
      → (get c text model).1 ≡ embedding_of (lookup (cache_key model text) c.cache)
  unfolding get
  get-lookup c text model = elim (Option-cases (lookup (cache_key model text) c.cache)) [
    | inl absent ↦ rw (absent, get) refl
    | inr (entry, there) ↦ rw (there, get) refl
  ]

  -- What was written is read back, whatever the cache held and however small it is.
  pub get-put :
      (c : EmbeddingCache F) (now : Timestamp) (text model : Text) (embedding : List F)
      → (get (put c now text model embedding) text model).1 ≡ some embedding
  unfolding put
  get-put c now text model embedding =
      let key = cache_key model text in
      let written : (m : HashMap (CachedEmbedding F))
          → lookup key (insert key (fresh_entry now embedding) m)
            ≡ some (fresh_entry now embedding) =
        λ m. rw (lookup-insert key key (fresh_entry now embedding) m, ==_refl key) refl in
      get-lookup (put c now text model embedding) text model
      ∙ elim (Option-cases (lookup key c.cache)) [
        | inr (entry, there) ↦ rw (there, put, written c.cache) refl
        | inl absent ↦ rw (absent, put, written (evict_loop c c.order).cache) refl
      ]

  -- A read changes no answer of a later read.
  pub get-get :
      (c : EmbeddingCache F) (text model text' model' : Text)
      → (get (get c text model).0 text' model').1 ≡ (get c text' model').1
  unfolding get
  get-get c text model text' model' =
      let key = cache_key model text in
      rw (get-lookup (get c text model).0 text' model', get-lookup c text' model')
        (elim (Option-cases (lookup key c.cache)) [
          | inl absent ↦ rw (absent, get) refl
          | inr (entry, there) ↦
              let used : CachedEmbedding F = record entry {
                hit_count = add_u32 entry.hit_count 1;
              } in
              rw (there, get, lookup-insert key (cache_key model' text') used c.cache)
                (elim (Bool-cases (key == cache_key model' text')) [
                  | inl same ↦
                      rw (same, sym ((==_iff key (cache_key model' text')).0 same), there) refl
                  | inr other ↦ rw other refl
                ])
        ])
