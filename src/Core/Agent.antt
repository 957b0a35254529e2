-- ===== src/Core/Agent.antt =====
-- The agent registry of crates/mentedb-core/src/agent.rs. A fresh `AgentId` and the current time are
-- arguments, `SpaceId::nil()` is 0, and the metadata are a list with one entry for a key.
use grasp.Prelude.{
  ℕ, ◌≡◌, refl, sym, inl, inr, Option, none, some, List, [], ◌∷◌, map, ◌==◌, ==_iff, if◌then◌else◌,
  Bool-cases, Option-cases, HashMap, lookup, insert, remove, lookup-insert,
}
use grasp.Core.Edge.{Text, Timestamp}
use grasp.Core.Text.{same_text}

abbrev pub AgentId : Type 0
AgentId = ℕ

abbrev pub Metadata : Type 0
Metadata = List (Text × Text)

pub record Agent : Type 0 where
  pub id : AgentId
  pub name : Text
  pub created_at : Timestamp
  pub metadata : Metadata
  pub default_space : ℕ

-- The only field of `AgentRegistry`.
abbrev pub AgentRegistry : Type 0
AgentRegistry = HashMap Agent

-- `insert` of the map of metadata.
abbrev pub insert_metadata : Text → Text → Metadata → Metadata
insert_metadata key value [] = (key, value) ∷ []
insert_metadata key value ((k, v) ∷ m) =
    if same_text k key then (key, value) ∷ m else (k, v) ∷ insert_metadata key value m

abbrev pub new : AgentRegistry
new = []

unfoldable pub register :
    AgentRegistry → (fresh : AgentId) → (now : Timestamp) → Text → AgentRegistry × Agent
register agents fresh now name =
    let agent : Agent = record {
      id = fresh;
      name = name;
      created_at = now;
      metadata = [];
      default_space = 0;
    } in
    (insert fresh agent agents, agent)

abbrev pub get : AgentRegistry → AgentId → Option Agent
get agents id = lookup id agents

abbrev pub unregister : AgentRegistry → AgentId → AgentRegistry
unregister agents id = remove id agents

abbrev pub list : AgentRegistry → List Agent
list agents = map (λ p. p.1) agents

unfoldable pub update_metadata : AgentRegistry → AgentId → Text → Text → AgentRegistry
update_metadata agents id key value = elim (lookup id agents) [
  | none ↦ agents
  | some agent ↦
      insert id (record agent { metadata = insert_metadata key value agent.metadata }) agents
]

-- What an update leaves of an agent that may be there.
abbrev pub updated : Text → Text → Option Agent → Option Agent
updated key value none = none
updated key value (some agent) =
    some (record agent { metadata = insert_metadata key value agent.metadata })

-- An update of the metadata of an agent changes that agent, if it is registered, and no other.
pub get-update_metadata :
    (agents : AgentRegistry) (id : AgentId) (key value : Text) (other : AgentId)
    → get (update_metadata agents id key value) other
      ≡ (if id == other then updated key value (get agents id) else get agents other)
unfolding update_metadata
get-update_metadata agents id key value other = elim (Option-cases (lookup id agents)) [
  | inl absent ↦ elim (Bool-cases (id == other)) [
    | inl same ↦ rw (same, sym ((==_iff id other).0 same), absent, update_metadata) absent
    | inr differ ↦ rw (absent, update_metadata, differ) refl
  ]
  | inr (agent, there) ↦
      rw
        (
          there,
          update_metadata,
          lookup-insert id other
              (record agent { metadata = insert_metadata key value agent.metadata }) agents,
        )
        refl
]
