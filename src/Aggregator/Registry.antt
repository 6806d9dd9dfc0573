-- ===== src/Aggregator/Registry.antt =====
-- What the two maps and the counter of the aggregator stand for: the list of the batch roots in the
-- order of their registration, each at most once, with the index of a root as its place in the list.
pub mod Places
pub mod Growth
use beluuga.Prelude.{
  ℕ, suc, ◌≤◌, ◌==◌, ◌≡◌, Option, none, some, List, [], ◌∷◌, ◌++◌, length, get_elem?, if◌then◌else◌,
}
use beluuga.Prelude.Keys.{nat_eq, bytes_eq}
use beluuga.Go.Word.{u32, u32_mod}
use beluuga.Go.Map
use beluuga.Types.{Bytes32}
use beluuga.Aggregator.State.{Aggregator}

-- The place of a root in the list.
unfoldable pub index_of : Bytes32 → List Bytes32 → Option ℕ
index_of r [] = none
index_of r (x ∷ xs) =
    if x == r then some 0 else elim (index_of r xs) [ none ↦ none | some i ↦ some (suc i) ]

-- The abstract operation: a root that is new goes to the end, until all of the 2^32 indices are used.
unfoldable pub enroll : Bytes32 → List Bytes32 → List Bytes32
enroll r roots = elim (index_of r roots) [
  | some i ↦ roots
  | none ↦ if length roots == u32_mod then roots else roots ++ r ∷ []
]

pub record Represents {S : Type 0} (agg : Aggregator S) (roots : List Bytes32) : Type 0 where
  pub size : length roots ≤ u32_mod
  pub next : agg.next_batch_index ≡ u32 (length roots)
  pub by_idx : (i : ℕ) → Map.get agg.batches_root_by_idx i ≡ get_elem? roots i
  pub by_root : (r : Bytes32) → Map.get agg.batches_idx_by_root r ≡ index_of r roots
  pub distinct : (i : ℕ) (r : Bytes32) → get_elem? roots i ≡ some r → index_of r roots ≡ some i
