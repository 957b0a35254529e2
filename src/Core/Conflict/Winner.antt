-- ===== src/Core/Conflict/Winner.antt =====
-- Which version of a detected conflict the latest one is.
use grasp.Prelude.{
  ◌≤◌, ◌≡◌, refl, sym, ap, ◌∙◌, subst, inl, inr, true, Option, none, some, List, [], ◌∷◌, arith,
  Memᴰ, leb, Bool-cases, length, retain, Memᴰ-retain,
}
use mathlib.Core.List.Memᴰ
use grasp.Core.Float32.{Float32}
use grasp.Core.Edge.{MemoryId}
use grasp.Core.Conflict.{
  ConflictVersion, Conflict, latest_from, latest, keep_latest, auto_resolve, resolve_keep_latest,
  detect_conflict,
}
use grasp.Core.Conflict.Detected.{has_rival, conflict_of, detect_conflict-conflict_of}

module _ {F : Type 0} where
  -- One of the versions, and none is later.
  abbrev Latest : List (ConflictVersion F) → ConflictVersion F → Type 0
  Latest versions w =
      Memᴰ w versions × ((v : ConflictVersion F) → Memᴰ v versions → v.timestamp ≤ w.timestamp)

  latest_from-Latest :
      (best : ConflictVersion F) (rest : List (ConflictVersion F))
      → Latest (best ∷ rest) (latest_from best rest)
  unfolding latest_from
  latest_from-Latest best [] = (
    Memᴰ.head refl,
    λ v m. elim (Memᴰ.cases_cons m) [
      | inl e ↦ subst (λ x. x.timestamp ≤ best.timestamp) (sym e) (omega arith)
      | inr later ↦ absurd (Memᴰ.not-nil later)
    ],
  )
  latest_from-Latest best (v ∷ rest) = elim (Bool-cases (leb best.timestamp v.timestamp)) [
    | inl newer ↦
        let (there, most) = latest_from-Latest v rest in
        let le = most v (Memᴰ.head refl) in
        rw (newer, latest_from)
          (
            Memᴰ.tail there,
            λ x m. elim (Memᴰ.cases_cons m) [
              | inl e ↦ let same = ap (λ y. y.timestamp) e in ground arith
              | inr later ↦ most x later
            ],
          )
    | inr older ↦
        let (there, most) = latest_from-Latest best rest in
        let le = most best (Memᴰ.head refl) in
        rw (older, latest_from)
          (
            elim (Memᴰ.cases_cons there) [
              | inl e ↦ Memᴰ.head e
              | inr behind ↦ Memᴰ.tail (Memᴰ.tail behind)
            ],
            λ x m. elim (Memᴰ.cases_cons m) [
              | inl e ↦ most x (Memᴰ.head e)
              | inr later ↦ elim (Memᴰ.cases_cons later) [
                | inl e ↦ let same = ap (λ y. y.timestamp) e in ground arith
                | inr rest_m ↦ most x (Memᴰ.tail rest_m)
              ]
            ],
          )
  ]

  abbrev versions_of : List (ConflictVersion F) → Option (Conflict F) → List (ConflictVersion F)
  versions_of rivals none = rivals
  versions_of rivals (some c) = c.versions

  latest-Latest :
      (versions : List (ConflictVersion F))
      → leb 2 (length versions) ≡ true
      → (w : ConflictVersion F) × (latest versions ≡ some w) × Latest versions w
  latest-Latest [] h = cc
  latest-Latest (v ∷ rest) h = (latest_from v rest, refl, latest_from-Latest v rest)

module _ {F : Type 0} (fl : Float32 F) where
  -- Resolving a detected conflict for the latest version does not panic. It gives one of the
  -- versions that conflict, and of these none has a later timestamp.
  pub auto_resolve-detect_conflict :
      (memory_id : MemoryId) (versions : List (ConflictVersion F)) (c : Conflict F)
      → detect_conflict memory_id versions ≡ some c
      → (w : ConflictVersion F) × (auto_resolve fl c keep_latest ≡ some w)
        × Memᴰ w versions
        × (has_rival versions w ≡ true)
        × ((v : ConflictVersion F)
            → Memᴰ v versions
            → has_rival versions v ≡ true
            → v.timestamp ≤ w.timestamp)
  unfolding auto_resolve resolve_keep_latest
  auto_resolve-detect_conflict memory_id versions c found =
      let rivals = retain (has_rival versions) versions in
      let reported : conflict_of memory_id rivals ≡ some c =
        sym (detect_conflict-conflict_of memory_id versions) ∙ found in
      elim (Bool-cases (leb 2 (length rivals))) [
        | inl enough ↦
            let e = rw enough at reported in
            let same : rivals ≡ c.versions = ap (λ o. versions_of rivals o) e in
            let (w, newest, (there, most)) = latest-Latest rivals enough in
            let (given, rival) = (Memᴰ-retain (has_rival versions) w versions).0 there in
            (
              w,
              ap latest (sym same) ∙ newest,
              given,
              rival,
              λ v m r. most v ((Memᴰ-retain (has_rival versions) v versions).1 (m, r)),
            )
        | inr few ↦ absurd (ground (arith, rw few at reported))
      ]
