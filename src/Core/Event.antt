-- ===== src/Core/Event.antt =====
-- The event bus of crates/mentedb-core/src/event.rs. A callback reads the event and changes the
-- world `W` outside the bus; a handle is a `usize` of 64 bits. The two locks are not modelled: each
-- call is one step.
pub mod Handles
use grasp.Prelude.{ℕ, not, List, [], ◌∷◌, ◌++◌, ◌==◌, retain, add_u64}
use grasp.Core.Edge.{EdgeType, MemoryId}

abbrev pub SubscriberId : Type 0
SubscriberId = ℕ

pub data MenteEvent (F : Type 0) : Type 0 where
  memory_created : (id : MemoryId) (agent_id : ℕ) → MenteEvent F
  memory_updated : (id : MemoryId) (version : ℕ) → MenteEvent F
  memory_deleted : (id : MemoryId) → MenteEvent F
  edge_created : (source target : MemoryId) (edge_type : EdgeType) → MenteEvent F
  belief_changed : (id : MemoryId) (old_confidence new_confidence : F) → MenteEvent F
  space_created : (id : ℕ) → MenteEvent F
  contradiction_detected : (a b : MemoryId) → MenteEvent F

abbrev pub Subscriber : Type 0 → Type 0 → Type 0
Subscriber F W = MenteEvent F → W → W

pub record Entry (F W : Type 0) : Type 0 where
  pub id : SubscriberId
  pub callback : Subscriber F W

pub record EventBus (F W : Type 0) : Type 0 where
  pub subscribers : List (Entry F W)
  pub next_id : ℕ

module _ {F W : Type 0} where
  abbrev pub new : EventBus F W
  new = record { subscribers = []; next_id = 0 }

  unfoldable pub subscribe : EventBus F W → Subscriber F W → EventBus F W × SubscriberId
  subscribe bus callback =
      let id = bus.next_id in
      (
        record {
          subscribers = bus.subscribers ++ record { id = id; callback = callback } ∷ [];
          next_id = add_u64 id 1;
        },
        id,
      )

  unfoldable pub unsubscribe : EventBus F W → SubscriberId → EventBus F W
  unsubscribe bus id = record bus { subscribers = retain (λ e. not (e.id == id)) bus.subscribers }

  -- The loop over the subscribers.
  unfoldable pub call_all : List (Entry F W) → MenteEvent F → W → W
  call_all [] event w = w
  call_all (entry ∷ rest) event w = call_all rest event (entry.callback event w)

  abbrev pub publish : EventBus F W → MenteEvent F → W → W
  publish bus event w = call_all bus.subscribers event w
