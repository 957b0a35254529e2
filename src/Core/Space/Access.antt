-- ===== src/Core/Space/Access.antt =====
-- Who may do what after a grant, a revocation or the creation of a space.
use grasp.Prelude.{
  ◌||◌, inl, inr, ℕ, ◌≡◌, refl, ◌∙◌, inl, inr, true, false, not, ◌&&◌, some, List, [], ◌∷◌, arith,
  ◌==◌, if◌then◌else◌, ==_iff, Bool-cases, retain, any, lookup, lookup-insert,
}
use grasp.Core.Space.{
  Permission, satisfies, AccessEntry, MemorySpace, SpaceManager, grant, update_space, grant_access,
  revoke_access, allows, check_access,
}

-- At most one entry for an agent.
abbrev pub Single : List AccessEntry → Type 0
Single [] = Unit
Single (e ∷ rest) = (any (λ x. x.agent_id == e.agent_id) rest ≡ false) × Single rest

any-grant :
    (entries : List AccessEntry) (agent other : ℕ) (perm : Permission)
    → any (λ x. x.agent_id == other) (grant agent perm entries)
      ≡ (agent == other || any (λ x. x.agent_id == other) entries)
unfolding grant
any-grant [] agent other perm = ground arith
any-grant (e ∷ rest) agent other perm = ground (arith, any-grant rest agent other perm)

-- A grant to an agent that has an entry replaces it: a list with at most one entry for each agent
-- stays so.
pub grant-Single :
    (entries : List AccessEntry) (agent : ℕ) (perm : Permission)
    → Single entries
    → Single (grant agent perm entries)
unfolding grant
grant-Single [] agent perm single = (refl, tt)
grant-Single (e ∷ rest) agent perm single = elim (Bool-cases (e.agent_id == agent)) [
  | inl same ↦ rw same single
  | inr other ↦ rw other (
    ground (arith, any-grant rest agent e.agent_id perm, single.0),
    grant-Single rest agent perm single.1,
  )
]

-- The agent has no entry.
allows-absent :
    (entries : List AccessEntry) (agent : ℕ) (required : Permission)
    → any (λ x. x.agent_id == agent) entries ≡ false
    → allows entries agent required ≡ false
allows-absent [] agent required h = refl
allows-absent (e ∷ rest) agent required h = ground (arith, allows-absent rest agent required)

allows-grant :
    (entries : List AccessEntry) (agent other : ℕ) (perm required : Permission)
    → Single entries
    → allows (grant agent perm entries) other required
      ≡ (if agent == other then satisfies perm required else allows entries other required)
unfolding grant
allows-grant [] agent other perm required single = ground arith
allows-grant (e ∷ rest) agent other perm required single = ground (
  arith,
  allows-grant rest agent other perm required single.1,
  allows-absent rest e.agent_id required,
)

allows-revoke :
    (entries : List AccessEntry) (agent other : ℕ) (required : Permission)
    → allows (retain (λ e. not (e.agent_id == agent)) entries) other required
      ≡ (if agent == other then false else allows entries other required)
allows-revoke [] agent other required = ground arith
allows-revoke (e ∷ rest) agent other required =
    ground (arith, allows-revoke rest agent other required)

abbrev pub with_access : (List AccessEntry → List AccessEntry) → MemorySpace → MemorySpace
with_access change s = record s { access_list = change s.access_list }

check_access-update_space :
    (spaces : SpaceManager) (space other agent : ℕ) (change : List AccessEntry → List AccessEntry)
    (required : Permission) {s : MemorySpace}
    → lookup space spaces ≡ some s
    → check_access (update_space space change spaces) other agent required ≡ (
        if space == other
        then if s.owner == agent then true else allows (change s.access_list) agent required
        else check_access spaces other agent required)
unfolding check_access update_space
check_access-update_space spaces space other agent change required {s} found =
    rw (found, update_space)
      (ground (arith, lookup-insert space other (with_access change s) spaces))

module _ (spaces : SpaceManager) (space agent : ℕ) {s : MemorySpace}
    (found : lookup space spaces ≡ some s) where
  -- After a grant in a space that exists and that has at most one entry for each agent, the agent,
  -- unless it owns the space, has what the permission granted satisfies and nothing else; the
  -- access of others and to other spaces does not change.
  pub check_access-grant_access :
      (perm : Permission) (other_space other : ℕ) (required : Permission)
      → Single s.access_list
      → check_access (grant_access spaces space agent perm) other_space other required ≡ (
          if (space == other_space && agent == other) && not (s.owner == other)
          then satisfies perm required
          else check_access spaces other_space other required)
  unfolding grant_access check_access
  check_access-grant_access perm other_space other required single =
      check_access-update_space spaces space other_space other (grant agent perm) required found
      ∙ elim (Bool-cases (space == other_space)) [
        | inl same ↦
            let e = (==_iff space other_space).0 same in
            ground (arith, allows-grant s.access_list agent other perm required single, found)
        | inr different ↦ rw different refl
      ]

  -- After a revocation an agent that does not own the space has no access to it at all; the access
  -- of others and to other spaces does not change.
  pub check_access-revoke_access :
      (other_space other : ℕ) (required : Permission)
      → check_access (revoke_access spaces space agent) other_space other required ≡ (
          if (space == other_space && agent == other) && not (s.owner == other)
          then false
          else check_access spaces other_space other required)
  unfolding revoke_access check_access
  check_access-revoke_access other_space other required =
      check_access-update_space spaces space other_space other
        (retain (λ e. not (e.agent_id == agent))) required found
      ∙ elim (Bool-cases (space == other_space)) [
        | inl same ↦
            let e = (==_iff space other_space).0 same in
            ground (arith, allows-revoke s.access_list agent other required, found)
        | inr different ↦ rw different refl
      ]
