-- ===== src/Operator/Data.antt =====
-- operator/pkg/verification_data.go
use beluuga.ProvingSystem.{ProvingSystemId}
use beluuga.Go.Slice.{Slice}

pub record VerificationData : Type 0 where
  pub proving_system_id : ProvingSystemId
  pub proof : Slice
  pub pub_input : Slice
  pub verification_key : Slice
  pub vm_program_code : Slice
