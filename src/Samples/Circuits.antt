-- ===== src/Samples/Circuits.antt =====
-- The two circuits of task_sender/test_examples, over the builder that gnark passes to `Define`.
use beluuga.Prelude.{ℕ, List, [], ◌∷◌}
use beluuga.Errors.{Result, ok}

-- `frontend.API`, as far as it is used: a call adds to the constraint system that is being built.
pub record Api : Type 1 where
  pub Variable : Type 0
  pub System : Type 0
  pub constant : ℕ → Variable
  pub mul : Variable → Variable → List Variable → System → System × Variable
  pub add : Variable → Variable → List Variable → System → System × Variable
  pub assert_is_equal : Variable → Variable → System → System
  pub assert_is_different : Variable → Variable → System → System

-- x³ + x + 5 == y, with a public y
pub record CubicCircuit (V : Type 0) : Type 0 where
  pub x : V
  pub y : V

-- x != 0
pub record InequalityCircuit (V : Type 0) : Type 0 where
  pub x : V

module _ (api : Api) where
  open api use {Variable, System, constant, mul, add, assert_is_equal, assert_is_different}

  unfoldable pub cubic_define : CubicCircuit Variable → System → System × Result (Unit {0})
  cubic_define circuit s =
      let (s1, x3) = mul circuit.x circuit.x (circuit.x ∷ []) s in
      let (s2, sum) = add x3 circuit.x (constant 5 ∷ []) s1 in
      (assert_is_equal circuit.y sum s2, ok tt)

  unfoldable pub inequality_define :
      InequalityCircuit Variable → System → System × Result (Unit {0})
  inequality_define circuit s = (assert_is_different circuit.x (constant 0) s, ok tt)
