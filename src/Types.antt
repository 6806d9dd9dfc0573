-- ===== src/Types.antt =====
-- core/types/signed_task_response.go, and the 32-byte arrays that the components pass about.
use beluuga.Prelude.{ℕ, List, replicate}

-- A `[32]byte`, as the list of its bytes; Go's zero value is 32 zero bytes.
abbrev pub Bytes32 : Type 0
Bytes32 = List ℕ

abbrev pub zero_bytes32 : Bytes32
zero_bytes32 = replicate 32 0

pub record SignedTaskResponse (Signature : Type 0) : Type 0 where
  pub batch_merkle_root : Bytes32
  pub bls_signature : Signature
  pub operator_id : Bytes32
