-- ===== src/Aggregator/Registry/Places.antt =====
-- Places in a list of roots.
use beluuga.Prelude.{
  ℕ, zero, suc, ◌==◌, ◌≡◌, ◌<◌, none, some, List, [], ◌∷◌, ◌++◌, length, get_elem?, arith,
  if◌then◌else◌, eq_refl_key, get_elem?_append_ne, get_elem?_append_last,
}
use beluuga.Prelude.Keys.{bytes_eq, list_beq_iff}
use native.Mathlib.Decide.{ℕ_discrete}
use beluuga.Types.{Bytes32}
use beluuga.Aggregator.Registry.{index_of, enroll}
use beluuga.Go.Word.{u32_mod}

pub index_of-append :
    (r x : Bytes32) (roots : List Bytes32)
    → index_of r (roots ++ x ∷ []) ≡ elim (index_of r roots) [
      | some i ↦ some i
      | none ↦ if x == r then some (length roots) else none
    ]
unfolding index_of
index_of-append r x [] = ground arith
index_of-append r x (y ∷ ys) = ground (arith, index_of-append r x ys)

-- The place of a root holds that root.
pub get_elem?-index_of :
    (r : Bytes32) (i : ℕ) (roots : List Bytes32)
    → index_of r roots ≡ some i
    → get_elem? roots i ≡ some r
unfolding index_of
get_elem?-index_of r i [] h = cc
get_elem?-index_of r zero (x ∷ xs) h = ground (arith, list_beq_iff x r)
get_elem?-index_of r (suc i) (x ∷ xs) h = ground (arith, get_elem?-index_of r i xs)

pub Distinct-append :
    (x : Bytes32) (roots : List Bytes32)
    → ((i : ℕ) (r : Bytes32) → get_elem? roots i ≡ some r → index_of r roots ≡ some i)
    → index_of x roots ≡ none
    → (i : ℕ) (r : Bytes32) → get_elem? (roots ++ x ∷ []) i ≡ some r
    → index_of r (roots ++ x ∷ []) ≡ some i
Distinct-append x roots old new i r h = elim (ℕ_discrete i (length roots)) [
  | yes e ↦
      ground (arith, get_elem?_append_last roots x i e, index_of-append r x roots, eq_refl_key x)
  | no n ↦ ground (arith, get_elem?_append_ne roots x i n, old i r, index_of-append r x roots)
]

pub enroll_known :
    (r : Bytes32) (roots : List Bytes32) {i : ℕ}
    → index_of r roots ≡ some i
    → enroll r roots ≡ roots
unfolding enroll
enroll_known r roots h = ground arith

pub enroll_full :
    (r : Bytes32) (roots : List Bytes32) → length roots ≡ u32_mod → enroll r roots ≡ roots
unfolding enroll
enroll_full r roots h = ground arith

pub enroll_new :
    (r : Bytes32) (roots : List Bytes32)
    → index_of r roots ≡ none
    → length roots < u32_mod
    → enroll r roots ≡ roots ++ r ∷ []
unfolding enroll
enroll_new r roots new room = ground arith
