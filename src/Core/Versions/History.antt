-- ===== src/Core/Versions/History.antt =====
-- What the reads of a version store say after writes.
use grasp.Prelude.{
  ℕ, suc, ◌+◌, ◌≤◌, ◌<◌, ◌≡◌, refl, ◌∙◌, inl, inr, Bool, some, List, [], ◌∷◌, ◌++◌, arith, leb,
  ◌==◌, if◌then◌else◌, ==_refl, Bool-cases, lookup, lookup-insert,
}
use grasp.Core.Edge.{MemoryId, Timestamp}
use grasp.Core.Versions.{
  Version, VersionStore, written, or_default, record_write, last, find_last, get_latest,
  get_history, get_version_at,
}

last-concat : (vs : List Version) (v : Version) → last (vs ++ v ∷ []) ≡ some v
last-concat [] v = refl
last-concat (w ∷ []) v = refl
last-concat (w ∷ x ∷ vs) v = last-concat (x ∷ vs) v

find_last-concat :
    (p : Version → Bool) (vs : List Version) (v : Version)
    → find_last p (vs ++ v ∷ []) ≡ (if p v then some v else find_last p vs)
find_last-concat p [] v = refl
find_last-concat p (w ∷ vs) v = ground (arith, find_last-concat p vs v)

history-or_default : (s : VersionStore) (m : ℕ) → get_history s m ≡ or_default (lookup m s.versions)
unfolding get_history
history-or_default s m = ground arith

get_latest-or_default :
    (s : VersionStore) (m : ℕ) → get_latest s m ≡ last (or_default (lookup m s.versions))
unfolding get_latest
get_latest-or_default s m = ground arith

get_version_at-or_default :
    (s : VersionStore) (m at : ℕ)
    → get_version_at s m at ≡ find_last (λ v. leb v.timestamp at) (or_default (lookup m s.versions))
unfolding get_version_at
get_version_at-or_default s m at = ground arith

module _ (s : VersionStore) (now : Timestamp) (m : MemoryId) (agent hash : ℕ) where
  versions-record_write :
      (other : MemoryId)
      → or_default (lookup other (record_write s now m agent hash).0.versions) ≡ (
          if m == other
          then or_default (lookup m s.versions) ++ written s now m agent hash ∷ []
          else or_default (lookup other s.versions))
  unfolding record_write
  versions-record_write other =
      rw
        (lookup-insert m other (or_default (lookup m s.versions) ++ written s now m agent hash ∷ [])
          s.versions)
        (ground arith)

  -- A write is appended to the history of its memory, and no other history changes. The latest
  -- version is then the one written, and a read as of a time gives it if that time has come, and
  -- otherwise what it gave before.
  pub record_write-history :
      (other : MemoryId) (at : Timestamp)
      → (get_history (record_write s now m agent hash).0 other ≡ (
          if m == other
          then get_history s m ++ written s now m agent hash ∷ []
          else get_history s other))
        × (get_latest (record_write s now m agent hash).0 m ≡ some (written s now m agent hash))
        × (get_version_at (record_write s now m agent hash).0 m at
            ≡ (if leb now at then some (written s now m agent hash) else get_version_at s m at))
  record_write-history other at =
      let t = (record_write s now m agent hash).0 in
      let own : or_default (lookup m t.versions)
          ≡ or_default (lookup m s.versions) ++ written s now m agent hash ∷ [] =
        versions-record_write m ∙ rw (==_refl m) refl in
      (
        rw (history-or_default t other, history-or_default s m, history-or_default s other)
            (versions-record_write other),
        rw (get_latest-or_default t m, own)
            (last-concat (or_default (lookup m s.versions)) (written s now m agent hash)),
        rw (get_version_at-or_default t m at, get_version_at-or_default s m at, own)
            (find_last-concat (λ v. leb v.timestamp at) (or_default (lookup m s.versions))
              (written s now m agent hash)),
      )

-- Every version in the store is older than the next one, in the order of the numbers.
abbrev pub Ordered : ℕ → List Version → Type 0
Ordered bound [] = Unit
Ordered bound (v ∷ []) = v.version_id < bound
Ordered bound (v ∷ w ∷ rest) = (v.version_id < w.version_id) × Ordered bound (w ∷ rest)

-- Every history is in the order of its version numbers, all below the next one.
pub record IsOrdered (s : VersionStore) : Type 0 where
  pub histories : (m : MemoryId) → Ordered s.next_version (get_history s m)

Ordered-le : (a b : ℕ) (vs : List Version) → a ≤ b → Ordered a vs → Ordered b vs
Ordered-le a b [] le h = tt
Ordered-le a b (v ∷ []) le h = omega arith
Ordered-le a b (v ∷ w ∷ rest) le h = (h.0, Ordered-le a b (w ∷ rest) le h.1)

Ordered-concat :
    (bound : ℕ) (vs : List Version) (v : Version)
    → Ordered bound vs
    → v.version_id ≡ bound
    → Ordered (suc bound) (vs ++ v ∷ [])
Ordered-concat bound [] v h e = omega arith
Ordered-concat bound (w ∷ []) v h e = (omega arith, omega arith)
Ordered-concat bound (w ∷ x ∷ rest) v h e = (h.0, Ordered-concat bound (x ∷ rest) v h.1 e)

-- Writes keep every history in the order of the version numbers, which grow, as long as the
-- counter does not pass 2 ^ 64.
pub record_write-IsOrdered :
    (s : VersionStore) (now : Timestamp) (m : MemoryId) (agent hash : ℕ)
    → s.next_version + 1 < 18446744073709551616
    → IsOrdered s
    → IsOrdered (record_write s now m agent hash).0
unfolding record_write get_history
record_write-IsOrdered s now m agent hash small ordered = record {
  histories = λ other.
      let next : (record_write s now m agent hash).0.next_version ≡ suc s.next_version =
        omega arith in
      rw (next, (record_write-history s now m agent hash other 0).0)
        (elim (Bool-cases (m == other)) [
          | inl same ↦ rw same (
              Ordered-concat s.next_version (get_history s m) (written s now m agent hash)
                (ordered.histories m) refl)
          | inr different ↦ rw different (
              Ordered-le s.next_version (suc s.next_version) (get_history s other) (omega arith)
                (ordered.histories other))
        ]);
}
