-- ===== src/Consolidation/Forget/Planned.antt =====
-- What a plan to forget counts.
use grasp.Prelude.{
  ℕ, ◌≡◌, refl, ap, ◌∙◌, inl, inr, Bool, false, ◌&&◌, ◌||◌, Option, none, some, List, [], ◌∷◌, ◌++◌,
  arith, ◌==◌, Bool-cases, length, set, retain, any, retain_congr, contains, contains-append,
  with_element, contains-with_element,
}
use grasp.Core.Edge.{MemoryId, Text}
use grasp.Core.Memory.{MemoryNode}
use grasp.Consolidation.Forget.{
  ForgetRequest, add_ids, add_matching, add_agent, add_space, plan_forget,
}

-- No element twice.
abbrev pub Unique : List MemoryId → Type 0
Unique [] = Unit
Unique (x ∷ xs) = (contains xs x ≡ false) × Unique xs

Unique-concat :
    (xs : List MemoryId) (v : MemoryId) → Unique xs → contains xs v ≡ false → Unique (xs ++ v ∷ [])
Unique-concat [] v unique fresh = (refl, tt)
Unique-concat (x ∷ xs) v unique fresh =
    let other : (x == v) ≡ false = ground arith in
    let turned : (v == x) ≡ false = ground arith in
    (
      ground (arith, contains-append xs (v ∷ []) x, unique.0),
      Unique-concat xs v unique.1 (ground arith),
    )

with_element-Unique : (xs : List MemoryId) (v : MemoryId) → Unique xs → Unique (with_element xs v)
with_element-Unique xs v unique = elim (Bool-cases (contains xs v)) [
  | inl old ↦ rw old unique
  | inr fresh ↦ rw fresh (Unique-concat xs v unique fresh)
]

-- A set that is extended: still without repetitions, and with the given further elements.
record Extends (more : MemoryId → Bool) (set set' : List MemoryId) : Type 0 where
  unique : Unique set → Unique set'
  holds : (v : MemoryId) → contains set' v ≡ (contains set v || more v)

add_ids-Extends : (set ids : List MemoryId) → Extends (contains ids) set (add_ids set ids)
unfolding add_ids
add_ids-Extends set [] = record { unique = λ u. u; holds = λ v. ground arith }
add_ids-Extends set (id ∷ ids) =
    let rest = add_ids-Extends (with_element set id) ids in
    record {
      unique = λ u. rest.unique (with_element-Unique set id u);
      holds = λ v. ground (arith, rest.holds v, contains-with_element set id v);
    }

-- The field of a memory is the requested one.
abbrev pub asked : Option ℕ → ℕ → Bool
asked none n = false
asked (some wanted) n = n == wanted

module _ {F D : Type 0} where
  -- A memory with the identifier matches.
  abbrev matched : (MemoryNode F D → Bool) → List (MemoryNode F D) → MemoryId → Bool
  matched matches memories v = any (λ m. matches m && m.id == v) memories

  add_matching-Extends :
      (matches : MemoryNode F D → Bool) (set : List MemoryId) (memories : List (MemoryNode F D))
      → Extends (matched matches memories) set (add_matching matches set memories)
  unfolding add_matching
  add_matching-Extends matches set [] = record { unique = λ u. u; holds = λ v. ground arith }
  add_matching-Extends matches set (m ∷ memories) = elim (Bool-cases (matches m)) [
    | inl hit ↦
        let rest = add_matching-Extends matches (with_element set m.id) memories in
        rw (hit, add_matching)
          (record {
            unique = λ u. rest.unique (with_element-Unique set m.id u);
            holds = λ v. ground (arith, rest.holds v, contains-with_element set m.id v);
          })
    | inr miss ↦
        let rest = add_matching-Extends matches set memories in
        rw (miss, add_matching)
          (record { unique = rest.unique; holds = λ v. ground (arith, rest.holds v) })
  ]

  -- The identifiers that a request is about: those that it lists, and those of the memories of its
  -- agent or of its space.
  abbrev pub to_forget : ForgetRequest → List (MemoryNode F D) → MemoryId → Bool
  to_forget request memories v =
      contains request.memory_ids v
      || any (λ m. asked request.agent_id m.agent_id && m.id == v) memories
      || any (λ m. asked request.space_id m.space_id && m.id == v) memories

  matched_none :
      (memories : List (MemoryNode F D)) (v : MemoryId) → matched (λ m. false) memories v ≡ false
  matched_none [] v = refl
  matched_none (m ∷ memories) v = matched_none memories v

  add_agent-holds :
      (agent_id : Option ℕ) (set : List MemoryId) (memories : List (MemoryNode F D))
      → Extends
          (matched (λ m. asked agent_id m.agent_id) memories)
          set
          (add_agent agent_id set memories)
  add_agent-holds none set memories = record {
    unique = λ u. u;
    holds = λ v. ground (arith, matched_none memories v);
  }
  add_agent-holds (some agent_id) set memories =
      add_matching-Extends (λ m. m.agent_id == agent_id) set memories

  add_space-holds :
      (space_id : Option ℕ) (set : List MemoryId) (memories : List (MemoryNode F D))
      → Extends
          (matched (λ m. asked space_id m.space_id) memories)
          set
          (add_space space_id set memories)
  add_space-holds none set memories = record {
    unique = λ u. u;
    holds = λ v. ground (arith, matched_none memories v);
  }
  add_space-holds (some space_id) set memories =
      add_matching-Extends (λ m. m.space_id == space_id) set memories

  -- A plan counts, each once, the identifiers that the request lists and those of the memories that
  -- belong to its agent or to its space, whether a listed one is stored or not; as many facts; and
  -- the edges with an end among them.
  pub plan_forget-to_forget :
      (show : MemoryId → Text) (request : ForgetRequest) (memories : List (MemoryNode F D))
      (edges : List (MemoryId × MemoryId))
      → let plan = plan_forget show request memories edges in
        (ids : List MemoryId) × Unique ids
        × ((v : MemoryId) → contains ids v ≡ to_forget request memories v)
        × (plan.deleted_memories ≡ length ids)
        × (plan.deleted_facts ≡ length ids)
        × (plan.deleted_edges
            ≡ length (
                retain
                  (λ e. to_forget request memories e.0 || to_forget request memories e.1)
                  edges))
  unfolding plan_forget
  plan_forget-to_forget show request memories edges =
      let requested = add_ids [] request.memory_ids in
      let of_agent = add_agent request.agent_id requested memories in
      let to_delete = add_space request.space_id of_agent memories in
      let first = add_ids-Extends [] request.memory_ids in
      let second = add_agent-holds request.agent_id requested memories in
      let third = add_space-holds request.space_id of_agent memories in
      let holds =
        λ (v : MemoryId). third.holds v ∙ (rw (second.holds v, first.holds v) (ground arith)) in
      (
        to_delete,
        third.unique (second.unique (first.unique tt)),
        holds,
        refl,
        refl,
        ap length (
            retain_congr (λ e. contains to_delete e.0 || contains to_delete e.1)
              (λ e. to_forget request memories e.0 || to_forget request memories e.1) edges
              (λ e. rw (holds e.0, holds e.1) refl)),
      )
