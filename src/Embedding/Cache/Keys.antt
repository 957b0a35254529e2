-- ===== src/Embedding/Cache/Keys.antt =====
-- The queue of a cache lists its keys once each, from the least to the most recently used.
use grasp.Prelude.{
  ℕ, suc, ◌≤◌, max, ◌≡◌, refl, ap, inl, inr, true, false, not, ◌&&◌, none, List, [], ◌∷◌, ◌++◌,
  arith, ◌==◌, if◌then◌else◌, ==_iff, Bool-cases, length, retain, length-append, HashMap, lookup,
  insert, remove, lookup-insert, lookup-remove, is_some, contains, contains-append,
}
use grasp.Embedding.Cache.{CachedEmbedding, EmbeddingCache, move_to_back}

-- No number twice.
abbrev pub Once : List ℕ → Type 0
Once [] = Unit
Once (x ∷ xs) = (contains xs x ≡ false) × Once xs

module _ {F : Type 0} where
  -- No key twice.
  abbrev pub OnceKeys : HashMap (CachedEmbedding F) → Type 0
  OnceKeys [] = Unit
  OnceKeys ((k, v) ∷ m) = (lookup k m ≡ none) × OnceKeys m

  -- The queue and the map have the same keys, once each, and no more than `max_size`, except that
  -- a cache of size 0 holds one.
  pub record IsWf (c : EmbeddingCache F) : Type 0 where
    pub once : Once c.order
    pub entries : OnceKeys c.cache
    pub keys : (k : ℕ) → contains c.order k ≡ is_some (lookup k c.cache)
    pub size : length c.cache ≡ length c.order
    pub bounded : length c.cache ≤ max 1 c.max_size

  pub length-insert :
      (k : ℕ) (v : CachedEmbedding F) (m : HashMap (CachedEmbedding F))
      → length (insert k v m) ≡ (if is_some (lookup k m) then length m else suc (length m))
  length-insert k v [] = refl
  length-insert k v ((j, w) ∷ m) = ground (arith, length-insert k v m)

  pub remove-absent : (k : ℕ) (m : HashMap (CachedEmbedding F)) → lookup k m ≡ none → remove k m ≡ m
  remove-absent k [] h = refl
  remove-absent k ((j, w) ∷ m) h = ground (arith, remove-absent k m)

  pub length-remove :
      (k : ℕ) (m : HashMap (CachedEmbedding F))
      → OnceKeys m
      → is_some (lookup k m) ≡ true
      → suc (length (remove k m)) ≡ length m
  length-remove k [] once h = cc
  length-remove k ((j, w) ∷ m) once h = elim (Bool-cases (j == k)) [
    | inl same ↦ let e = (==_iff j k).0 same in rw (same, remove-absent k m (rw e at once.0)) refl
    | inr other ↦ rw (other, length-remove k m once.1 (rw other at h)) refl
  ]

  pub insert-OnceKeys :
      (k : ℕ) (v : CachedEmbedding F) (m : HashMap (CachedEmbedding F))
      → OnceKeys m
      → OnceKeys (insert k v m)
  insert-OnceKeys k v [] once = (refl, tt)
  insert-OnceKeys k v ((j, w) ∷ m) once = elim (Bool-cases (j == k)) [
    | inl same ↦ rw same (rw ((==_iff j k).0 same) at once)
    | inr other ↦ rw other (ground (arith, lookup-insert k j v m), insert-OnceKeys k v m once.1)
  ]

  pub remove-OnceKeys :
      (k : ℕ) (m : HashMap (CachedEmbedding F)) → OnceKeys m → OnceKeys (remove k m)
  remove-OnceKeys k [] once = tt
  remove-OnceKeys k ((j, w) ∷ m) once = elim (Bool-cases (j == k)) [
    | inl same ↦ rw same (remove-OnceKeys k m once.1)
    | inr other ↦ rw other (ground (arith, lookup-remove k j m), remove-OnceKeys k m once.1)
  ]

pub contains-retain :
    (key : ℕ) (xs : List ℕ) (k : ℕ)
    → contains (retain (λ x. not (x == key)) xs) k ≡ (contains xs k && not (key == k))
contains-retain key [] k = refl
contains-retain key (x ∷ xs) k = ground (arith, contains-retain key xs k)

pub Once-retain : (key : ℕ) (xs : List ℕ) → Once xs → Once (retain (λ x. not (x == key)) xs)
Once-retain key [] once = tt
Once-retain key (x ∷ xs) once = elim (Bool-cases (x == key)) [
  | inl same ↦ rw same (Once-retain key xs once.1)
  | inr other ↦ rw other (rw (contains-retain key xs x, once.0) refl, Once-retain key xs once.1)
]

pub Once-concat :
    (key : ℕ) (xs : List ℕ) → Once xs → contains xs key ≡ false → Once (xs ++ key ∷ [])
Once-concat key [] once fresh = (refl, tt)
Once-concat key (x ∷ xs) once fresh =
    (rw (contains-append xs (key ∷ []) x) (ground arith), Once-concat key xs once.1 (ground arith))

pub retain_other :
    (key : ℕ) (xs : List ℕ) → contains xs key ≡ false → retain (λ x. not (x == key)) xs ≡ xs
retain_other key [] fresh = refl
retain_other key (x ∷ xs) fresh = ground (arith, retain_other key xs)

pub length-move_to_back :
    (key : ℕ) (xs : List ℕ)
    → Once xs
    → contains xs key ≡ true
    → length (move_to_back key xs) ≡ length xs
length-move_to_back key [] once there = cc
length-move_to_back key (x ∷ xs) once there = elim (Bool-cases (x == key)) [
  | inl same ↦
      let e = (==_iff x key).0 same in
      rw (same, retain_other key xs (rw e at once.0), length-append xs (key ∷ [])) (omega arith)
  | inr other ↦ rw (other) (ap suc (length-move_to_back key xs once.1 (rw other at there)))
]
