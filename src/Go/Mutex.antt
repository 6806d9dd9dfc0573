-- ===== src/Go/Mutex.antt =====
-- `sync.Mutex` among goroutines: who stands in the critical section, and how one goroutine's move
-- changes that. Goroutines are numbered, and each stands at a place of type `P`.
use beluuga.Prelude.{ℕ, ◌≡◌, ◌≢◌, Bool, true, false, arith, if◌then◌else◌, ◌==◌}
use beluuga.Prelude.Keys.{nat_eq}
use native.Mathlib.Decide.{ℕ_discrete}

-- Goroutine `i` goes on to place `p`.
unfoldable pub move_to : {P : Type 0} → (ℕ → P) → ℕ → P → ℕ → P
move_to pc i p j = if i == j then p else pc j

pub move_to_here : {P : Type 0} (pc : ℕ → P) (i j : ℕ) (p : P) → i ≡ j → move_to pc i p j ≡ p
unfolding move_to
move_to_here pc i j p e = ground arith

pub move_to_other : {P : Type 0} (pc : ℕ → P) (i j : ℕ) (p : P) → i ≢ j → move_to pc i p j ≡ pc j
unfolding move_to
move_to_other pc i j p ne = ground arith

-- A property of every place survives a move to a place that has it.
pub move_to_all {ℓ} :
    {P : Type 0} (Q : ℕ → P → Type ℓ) (pc : ℕ → P) (i : ℕ) (p : P)
    → Q i p
    → ((j : ℕ) → Q j (pc j))
    → (j : ℕ) → Q j (move_to pc i p j)
move_to_all Q pc i p here there j = elim (ℕ_discrete i j) [
  | yes e ↦ rw (move_to_here pc i j p e) (rw e at here)
  | no ne ↦ rw (move_to_other pc i j p ne) (there j)
]

-- The mutex is taken exactly while one goroutine is in the critical section.
pub record Excludes {P : Type 0} (critical : P → Bool) (taken : Bool) (pc : ℕ → P) : Type 0 where
  pub unique : (i j : ℕ) → critical (pc i) ≡ true → critical (pc j) ≡ true → i ≡ j
  pub held : (i : ℕ) → critical (pc i) ≡ true → taken ≡ true
  pub owned : taken ≡ true → (i : ℕ) × (critical (pc i) ≡ true)

-- What a move does to the mutex: the goroutine goes from a place inside or outside to another.
pub data Turn : (before after taken taken' : Bool) → Type 0 where
  stays : {c t : Bool} → Turn c c t t
  enters : Turn false true false true
  leaves : Turn true false true false

module _ {P : Type 0} {critical : P → Bool} {pc : ℕ → P} {i : ℕ} {p : P} where
  pub Turn-Excludes :
      {before after taken taken' : Bool}
      → Excludes critical taken pc
      → critical (pc i) ≡ before
      → critical p ≡ after
      → Turn before after taken taken'
      → Excludes critical taken' (move_to pc i p)
  unfolding move_to
  Turn-Excludes ex from to stays = record {
    unique = λ j k h h'.
        ground (arith, ex.unique j k, ex.unique i k, ex.unique j i, ex.held j, ex.held k);
    held = λ j h. ground (arith, ex.held j, ex.unique i j);
    owned = λ h.
        let (j, e) = ex.owned h in
        elim (ℕ_discrete i j) [ yes same ↦ (i, ground arith) | no ne ↦ (j, ground arith) ];
  }
  Turn-Excludes ex from to enters = record {
    unique = λ j k h h'.
        ground (arith, ex.unique j k, ex.unique i k, ex.unique j i, ex.held j, ex.held k);
    held = λ j h. ground (arith, ex.held j, ex.unique i j);
    owned = λ h. (i, ground arith);
  }
  Turn-Excludes ex from to leaves = record {
    unique = λ j k h h'.
        ground (arith, ex.unique j k, ex.unique i k, ex.unique j i, ex.held j, ex.held k);
    held = λ j h. ground (arith, ex.held j, ex.unique i j);
    owned = λ h. cc;
  }

-- A mutex that nobody has taken yet.
pub free-Excludes :
    {P : Type 0} {critical : P → Bool} {pc : ℕ → P}
    → ((i : ℕ) → critical (pc i) ≡ false)
    → Excludes critical false pc
free-Excludes out = record {
  unique = λ i j h h'. cc (out i);
  held = λ i h. cc (out i);
  owned = λ h. cc;
}
