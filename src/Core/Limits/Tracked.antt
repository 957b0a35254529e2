-- ===== src/Core/Limits/Tracked.antt =====
-- The counters of a tracker under checked writes and deletes.
use grasp.Prelude.{
  ℕ, ◌+◌, ◌-◌, ◌%◌, ◌≤◌, ◌<◌, ◌≡◌, inl, inr, false, Option, none, some, arith, ltb, leb, ◌==◌,
  if◌then◌else◌, Bool-cases, add_u64, lookup-insert,
}
use grasp.Core.Limits.{
  ResourceLimits, ResourceTracker, new, agent_count, check_can_write, record_write, record_delete,
  exceeds,
}

abbrev AtMost : ℕ → Option ℕ → Type 0
AtMost n none = Unit
AtMost n (some limit) = n ≤ limit

-- No counter is over the limit that is set for it.
pub record IsWithin (t : ResourceTracker) : Type 0 where
  pub memories : AtMost t.current_memory_count t.limits.max_memories
  pub bytes : AtMost t.current_bytes t.limits.max_memory_bytes
  pub agents : (agent : ℕ) → AtMost (agent_count t agent) t.limits.max_memories_per_agent

-- What the callers do: a write is recorded only after its check, a delete at any time. The bytes
-- stay below 2 ^ 64.
pub data Reachable (limits : ResourceLimits) : ResourceTracker → Type 0 where
  start : Reachable limits (new limits)
  write :
      {t : ResourceTracker}
      → Reachable limits t
      → (agent bytes : ℕ) → check_can_write t agent bytes ≡ none
      → t.current_bytes + bytes < 18446744073709551616
      → Reachable limits (record_write t agent bytes)
  delete :
      {t : ResourceTracker}
      → Reachable limits t
      → (agent bytes : ℕ) → Reachable limits (record_delete t agent bytes)

AtMost-zero : (o : Option ℕ) → AtMost 0 o
AtMost-zero none = tt
AtMost-zero (some limit) = omega arith

AtMost-le : (m n : ℕ) (o : Option ℕ) → m ≤ n → AtMost n o → AtMost m o
AtMost-le m n none le h = tt
AtMost-le m n (some limit) le h = omega arith

wrap-le : (n : ℕ) → n % 18446744073709551616 ≤ n
wrap-le n = omega arith

-- One more under a limit that is not reached yet.
AtMost-suc :
    (n : ℕ) (o : Option ℕ) → exceeds o (λ limit. leb limit n) ≡ false → AtMost (add_u64 n 1) o
AtMost-suc n none h = tt
AtMost-suc n (some limit) h = ground arith

AtMost-add :
    (n b : ℕ) (o : Option ℕ)
    → n + b < 18446744073709551616
    → exceeds o (λ limit. ltb limit (add_u64 n b)) ≡ false
    → AtMost (add_u64 n b) o
AtMost-add n b none le h = tt
AtMost-add n b (some limit) le h = ground arith

agent_count-write :
    (t : ResourceTracker) (agent bytes other : ℕ)
    → agent_count (record_write t agent bytes) other
      ≡ (if agent == other then add_u64 (agent_count t agent) 1 else agent_count t other)
unfolding record_write
agent_count-write t agent bytes other =
    ground (arith, lookup-insert agent other (add_u64 (agent_count t agent) 1) t.agent_counts)

agent_count-delete :
    (t : ResourceTracker) (agent bytes other : ℕ)
    → agent_count (record_delete t agent bytes) other
      ≡ (if agent == other then agent_count t agent - 1 else agent_count t other)
unfolding record_delete
agent_count-delete t agent bytes other =
    ground (arith, lookup-insert agent other (agent_count t agent - 1) t.agent_counts)

record_write-IsWithin :
    (t : ResourceTracker) (agent bytes : ℕ)
    → check_can_write t agent bytes ≡ none
    → t.current_bytes + bytes < 18446744073709551616
    → IsWithin t
    → IsWithin (record_write t agent bytes)
unfolding record_write check_can_write
record_write-IsWithin t agent bytes ok small within = record {
  memories = AtMost-suc t.current_memory_count t.limits.max_memories (ground arith);
  bytes = AtMost-add t.current_bytes bytes t.limits.max_memory_bytes small (ground arith);
  agents = λ other. rw (agent_count-write t agent bytes other) (elim (Bool-cases (agent == other)) [
    | inl same ↦
        rw same (AtMost-suc (agent_count t agent) t.limits.max_memories_per_agent (ground arith))
    | inr different ↦ rw different (within.agents other)
  ]);
}

record_delete-IsWithin :
    (t : ResourceTracker) (agent bytes : ℕ) → IsWithin t → IsWithin (record_delete t agent bytes)
unfolding record_delete
record_delete-IsWithin t agent bytes within = record {
  memories = AtMost-le _ t.current_memory_count t.limits.max_memories (omega arith) within.memories;
  bytes = AtMost-le _ t.current_bytes t.limits.max_memory_bytes (omega arith) within.bytes;
  agents = λ other.
      rw (agent_count-delete t agent bytes other) (elim (Bool-cases (agent == other)) [
        | inl same ↦ rw same (
            AtMost-le (agent_count t agent - 1) (agent_count t agent)
              t.limits.max_memories_per_agent (omega arith) (within.agents agent))
        | inr different ↦ rw different (within.agents other)
      ]);
}

-- However writes that passed their check and deletes follow each other, no counter of a tracker
-- passes a limit, as long as the bytes stay below 2 ^ 64.
pub reachable-IsWithin :
    (limits : ResourceLimits) (t : ResourceTracker) → Reachable limits t → IsWithin t
unfolding new
reachable-IsWithin limits _ start = record {
  memories = AtMost-zero limits.max_memories;
  bytes = AtMost-zero limits.max_memory_bytes;
  agents = λ agent. AtMost-zero limits.max_memories_per_agent;
}
reachable-IsWithin limits _ (write {t} r agent bytes ok small) =
    record_write-IsWithin t agent bytes ok small (reachable-IsWithin limits t r)
reachable-IsWithin limits _ (delete {t} r agent bytes) =
    record_delete-IsWithin t agent bytes (reachable-IsWithin limits t r)

-- A delete takes back a write of as many bytes: the totals and the count of every agent are as
-- before, if neither counter passes 2 ^ 64.
pub record_delete-record_write :
    (t : ResourceTracker) (agent bytes : ℕ)
    → t.current_memory_count + 1 < 18446744073709551616
    → t.current_bytes + bytes < 18446744073709551616
    → agent_count t agent + 1 < 18446744073709551616
    → ((record_delete (record_write t agent bytes) agent bytes).current_memory_count
        ≡ t.current_memory_count)
      × ((record_delete (record_write t agent bytes) agent bytes).current_bytes ≡ t.current_bytes)
      × ((other : ℕ)
          → agent_count (record_delete (record_write t agent bytes) agent bytes) other
            ≡ agent_count t other)
unfolding record_write record_delete
record_delete-record_write t agent bytes memories small agents = (
  omega arith,
  omega arith,
  λ other. ground (
    arith,
    agent_count-delete (record_write t agent bytes) agent bytes other,
    agent_count-write t agent bytes other,
    agent_count-write t agent bytes agent,
  ),
)
