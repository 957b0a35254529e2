-- ===== src/Core/Space.antt =====
-- Memory spaces and their access lists: crates/mentedb-core/src/space.rs. A fresh `SpaceId` and the
-- current time are arguments.
pub mod Access
use grasp.Prelude.{
  ℕ, Bool, true, false, not, ◌&&◌, ◌||◌, Option, none, some, List, [], ◌∷◌, map, ◌==◌,
  if◌then◌else◌, retain, any, HashMap, lookup, insert, remove,
}
use grasp.Core.Edge.{Text, Timestamp}

pub data Permission : Type 0 where
  read : Permission
  write : Permission
  read_write : Permission
  admin : Permission

unfoldable pub satisfies : Permission → Permission → Bool
satisfies admin required = true
satisfies read_write read = true
satisfies read_write write = true
satisfies read_write read_write = true
satisfies read_write admin = false
satisfies read read = true
satisfies read write = false
satisfies read read_write = false
satisfies read admin = false
satisfies write read = false
satisfies write write = true
satisfies write read_write = false
satisfies write admin = false

pub record AccessEntry : Type 0 where
  pub agent_id : ℕ
  pub permission : Permission

pub record MemorySpace : Type 0 where
  pub id : ℕ
  pub name : Text
  pub owner : ℕ
  pub access_list : List AccessEntry
  pub created_at : Timestamp
  pub max_memories : Option ℕ
  pub current_count : ℕ

-- The only field of `SpaceManager`.
abbrev pub SpaceManager : Type 0
SpaceManager = HashMap MemorySpace

unfoldable pub create_space :
    SpaceManager → (fresh : ℕ) → (now : Timestamp) → Text → (owner : ℕ) → SpaceManager × MemorySpace
create_space spaces fresh now name owner =
    let space : MemorySpace = record {
      id = fresh;
      name = name;
      owner = owner;
      access_list = record { agent_id = owner; permission = admin } ∷ [];
      created_at = now;
      max_memories = none;
      current_count = 0;
    } in
    (insert fresh space spaces, space)

abbrev pub get_space : SpaceManager → ℕ → Option MemorySpace
get_space spaces id = lookup id spaces

abbrev pub delete_space : SpaceManager → ℕ → SpaceManager
delete_space spaces id = remove id spaces

-- The access list with the entry of the agent replaced, or with a new one at the end.
unfoldable pub grant : ℕ → Permission → List AccessEntry → List AccessEntry
grant agent perm [] = record { agent_id = agent; permission = perm } ∷ []
grant agent perm (e ∷ rest) =
    if e.agent_id == agent then record e { permission = perm } ∷ rest else e ∷ grant agent perm rest

-- What `get_mut` and an assignment through it do.
unfoldable pub update_space :
    ℕ → (List AccessEntry → List AccessEntry) → SpaceManager → SpaceManager
update_space id change spaces = elim (lookup id spaces) [
  | none ↦ spaces
  | some s ↦ insert id (record s { access_list = change s.access_list }) spaces
]

unfoldable pub grant_access : SpaceManager → ℕ → ℕ → Permission → SpaceManager
grant_access spaces space agent perm = update_space space (grant agent perm) spaces

unfoldable pub revoke_access : SpaceManager → ℕ → ℕ → SpaceManager
revoke_access spaces space agent =
    update_space space (retain (λ e. not (e.agent_id == agent))) spaces

-- Whether some entry of the agent is enough.
abbrev pub allows : List AccessEntry → ℕ → Permission → Bool
allows entries agent required =
    any (λ e. e.agent_id == agent && satisfies e.permission required) entries

unfoldable pub check_access : SpaceManager → ℕ → ℕ → Permission → Bool
check_access spaces space agent required = elim (lookup space spaces) [
  | none ↦ false
  | some s ↦ if s.owner == agent then true else allows s.access_list agent required
]

unfoldable pub list_spaces_for_agent : SpaceManager → ℕ → List MemorySpace
list_spaces_for_agent spaces agent =
    retain (λ s. s.owner == agent || any (λ e. e.agent_id == agent) s.access_list)
      (map (λ p. p.1) spaces)
