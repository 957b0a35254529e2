-- ===== src/Core/Edge.antt =====
-- Typed, weighted edges between memories: crates/mentedb-core/src/edge.rs. Identifiers are
-- 128-bit numbers, timestamps microseconds, a label its bytes.
use grasp.Prelude.{
  ℕ, ◌≡◌, ◌↔◌, Bool, true, ◌&&◌, Option, none, some, List, arith, ltb, leb, ◌==◌, is_some,
}

-- A UUID of types.rs.
abbrev pub MemoryId : Type 0
MemoryId = ℕ

abbrev pub Timestamp : Type 0
Timestamp = ℕ

abbrev pub Text : Type 0
Text = List ℕ

pub data EdgeType : Type 0 where
  caused before related contradicts supports supersedes derived part_of : EdgeType

-- The discriminant, by which `==` of the derived `PartialEq` compares.
abbrev pub discriminant : EdgeType → ℕ
discriminant caused = 0
discriminant before = 1
discriminant related = 2
discriminant contradicts = 3
discriminant supports = 4
discriminant supersedes = 5
discriminant derived = 6
discriminant part_of = 7

abbrev pub same_type : EdgeType → EdgeType → Bool
same_type a b = discriminant a == discriminant b

pub same_type_iff : (a b : EdgeType) → (same_type a b ≡ true) ↔ (a ≡ b)
same_type_iff a b = ground arith

pub record MemoryEdge (F : Type 0) : Type 0 where
  pub source : MemoryId
  pub target : MemoryId
  pub edge_type : EdgeType
  pub weight : F
  pub created_at : Timestamp
  pub valid_from : Option Timestamp
  pub valid_until : Option Timestamp
  pub label : Option Text

-- `unwrap_or` on a bound of validity.
abbrev pub unwrap_or : Option ℕ → ℕ → ℕ
unwrap_or none d = d
unwrap_or (some n) d = n

-- The two bounds of an interval of validity, as edges, stored edges and memories test them.
abbrev pub within_bounds : Option Timestamp → Option Timestamp → Timestamp → Bool
within_bounds valid_from valid_until at =
    let start = unwrap_or valid_from 0 in
    elim valid_until [ some until ↦ leb start at && ltb at until | none ↦ leb start at ]

module _ {F : Type 0} where
  pub is_valid_at : MemoryEdge F → Timestamp → Bool
  is_valid_at e at = within_bounds e.valid_from e.valid_until at

  pub invalidate : MemoryEdge F → Timestamp → MemoryEdge F
  invalidate e at = record e { valid_until = some at }

  pub is_invalidated : MemoryEdge F → Bool
  is_invalidated e = is_some e.valid_until
