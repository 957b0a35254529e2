-- ===== src/Core/Tests.antt =====
-- Small trackers, spaces and version stores, and the theorems at them.
use grasp.Prelude.{
  ◌+◌, ◌<◌, ◌≡◌, refl, not, ◌&&◌, none, some, [], ◌∷◌, ◌++◌, arith, leb, ◌==◌, if◌then◌else◌,
  lookup,
}
use grasp.Core.Limits.{
  ResourceLimits, ResourceTracker, agent_count, check_can_write, record_write, record_delete,
}
use grasp.Core.Limits as Limits
use grasp.Core.Limits.Tracked.{start, write, IsWithin, reachable-IsWithin}
use grasp.Core.Space.{
  read, satisfies, SpaceManager, MemorySpace, create_space, grant_access, check_access,
}
use grasp.Core.Space.Access.{Single, check_access-grant_access}
use grasp.Core.Versions.{VersionStore, written, get_history, get_latest, get_version_at}
use grasp.Core.Versions as Versions
use grasp.Core.Versions.History.{record_write-history}

abbrev two_memories : ResourceLimits
two_memories = record {
  max_memories = some 2;
  max_memory_bytes = some 100;
  max_memories_per_agent = some 1;
  max_embedding_dimensions = 4096;
  write_rate_limit = none;
}

allowed : check_can_write (Limits.new two_memories) 5 60 ≡ none
unfolding Limits.new check_can_write
allowed = refl

refused :
    check_can_write (record_write (Limits.new two_memories) 5 60) 6 41
    ≡ some (Limits.byte_limit 60 41 100)
unfolding Limits.new check_can_write record_write
refused = refl

room : (Limits.new two_memories).current_bytes + 60 < 18446744073709551616
unfolding Limits.new
room = omega arith

abbrev one_written : ResourceTracker
one_written = record_write (Limits.new two_memories) 5 60

reachable-IsWithin_example : IsWithin one_written
reachable-IsWithin_example =
    reachable-IsWithin two_memories one_written (write start 5 60 allowed room)

abbrev one_space : SpaceManager
one_space = (create_space [] 3 0 [] 5).0

abbrev space_3 : MemorySpace
space_3 = (create_space [] 3 0 [] 5).1

there : lookup 3 one_space ≡ some space_3
unfolding create_space
there = refl

single : Single space_3.access_list
unfolding create_space
single = (refl, tt)

check_access-grant_access_example : check_access (grant_access one_space 3 6 read) 3 6 read ≡ (
    if (3 == 3 && 6 == 6) && not (space_3.owner == 6)
    then satisfies read read
    else check_access one_space 3 6 read)
check_access-grant_access_example =
    check_access-grant_access one_space 3 6 there read 3 6 read single

abbrev one_version : VersionStore
one_version = (Versions.record_write Versions.new 10 7 5 99).0

record_write-history_example :
    (get_history (Versions.record_write one_version 20 7 6 98).0 7 ≡ (
      if 7 == 7
      then get_history one_version 7 ++ written one_version 20 7 6 98 ∷ []
      else get_history one_version 7))
    × (get_latest (Versions.record_write one_version 20 7 6 98).0 7
        ≡ some (written one_version 20 7 6 98))
    × (get_version_at (Versions.record_write one_version 20 7 6 98).0 7 15 ≡ (
        if leb 20 15
        then some (written one_version 20 7 6 98)
        else get_version_at one_version 7 15))
record_write-history_example = record_write-history one_version 20 7 6 98 7 15
