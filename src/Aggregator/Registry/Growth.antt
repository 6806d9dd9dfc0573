-- ===== src/Aggregator/Registry/Growth.antt =====
-- What stays as roots are enrolled.
use beluuga.Prelude.{
  ℕ, ◌≡◌, ◌⊎◌, inl, inr, some, List, [], ◌∷◌, ◌++◌, length, get_elem?, arith, get_elem?_append_ne,
  get_elem?_append_last, get_elem?_out,
}
use native.Mathlib.Decide.{ℕ_discrete}
use beluuga.Types.{Bytes32}
use beluuga.Aggregator.Registry.{index_of, enroll}
use beluuga.Aggregator.Registry.Places.{index_of-append}

pub enroll-cases :
    (r : Bytes32) (roots : List Bytes32)
    → (enroll r roots ≡ roots) ⊎ (enroll r roots ≡ roots ++ r ∷ [])
unfolding enroll
enroll-cases r roots = ground arith

-- A root keeps its index.
pub index_of-enroll :
    (r x : Bytes32) (roots : List Bytes32) {i : ℕ}
    → index_of x roots ≡ some i
    → index_of x (enroll r roots) ≡ some i
index_of-enroll r x roots h = elim (enroll-cases r roots) [
  | inl same ↦ rw same h
  | inr grown ↦ ground (arith, index_of-append x r roots)
]

-- An index keeps its root.
pub get_elem?-enroll :
    (r : Bytes32) (roots : List Bytes32) (i : ℕ) {x : Bytes32}
    → get_elem? roots i ≡ some x
    → get_elem? (enroll r roots) i ≡ some x
get_elem?-enroll r roots i h = elim (enroll-cases r roots) [
  | inl same ↦ rw same h
  | inr grown ↦ elim (ℕ_discrete i (length roots)) [
    | yes e ↦ ground (arith, get_elem?_out roots i)
    | no ne ↦ ground (arith, get_elem?_append_ne roots r i ne)
  ]
]

-- A root has no other way into the list.
pub enroll_origin :
    (r : Bytes32) (roots : List Bytes32) (i : ℕ) {x : Bytes32}
    → get_elem? (enroll r roots) i ≡ some x
    → (get_elem? roots i ≡ some x) ⊎ (r ≡ x)
enroll_origin r roots i h = elim (enroll-cases r roots) [
  | inl same ↦ inl (rw same at h)
  | inr grown ↦ elim (ℕ_discrete i (length roots)) [
    | yes e ↦ inr (ground (arith, get_elem?_append_last roots r i e))
    | no ne ↦ inl (ground (arith, get_elem?_append_ne roots r i ne))
  ]
]
