-- ===== src/ProvingSystem/Names.antt =====
-- Names and ids of common/proving_systems.go against one another.
use beluuga.Prelude.{zero, suc, ◌≡◌, ◌↔◌, ◌<◌, String, none, arith, eq_iff}
use beluuga.Errors.{ok, ok-injective}
use beluuga.Go.Outcome.{returned}
use beluuga.ProvingSystem.{
  ProvingSystemId, string, proving_system_id_from_string, proving_system_id_to_string,
}

from-to :
    (s : String) (t : ProvingSystemId)
    → proving_system_id_to_string t ≡ ok s
    → proving_system_id_from_string s ≡ (t, none)
unfolding proving_system_id_from_string proving_system_id_to_string
from-to s zero h = rw (← ok-injective h)
from-to s (suc zero) h = rw (← ok-injective h)
from-to s (suc (suc zero)) h = rw (← ok-injective h)
from-to s (suc (suc (suc zero))) h = rw (← ok-injective h)
from-to s (suc (suc (suc (suc zero)))) h = rw (← ok-injective h)
from-to s (suc (suc (suc (suc (suc zero))))) h = rw (← ok-injective h)
from-to s (suc (suc (suc (suc (suc (suc n)))))) h = ground arith

to-from :
    (s : String) (t : ProvingSystemId)
    → proving_system_id_from_string s ≡ (t, none)
    → proving_system_id_to_string t ≡ ok s
unfolding proving_system_id_from_string proving_system_id_to_string
to-from s t h = ground (
  arith,
  eq_iff s "GnarkPlonkBls12_381",
  eq_iff s "GnarkPlonkBn254",
  eq_iff s "Groth16Bn254",
  eq_iff s "SP1",
  eq_iff s "Halo2KZG",
  eq_iff s "Halo2IPA",
)

-- A name is read as an id without error exactly when it is the name that the id is written as.
pub from_string-to_string :
    (s : String) (t : ProvingSystemId)
    → (proving_system_id_from_string s ≡ (t, none)) ↔ (proving_system_id_to_string t ≡ ok s)
from_string-to_string s t = (to-from s t, from-to s t)

-- For an id that has a name, the method `String` returns that name exactly when the id is below 4:
-- for `Halo2KZG` and `Halo2IPA` it does not.
pub string_agrees :
    (t : ProvingSystemId) (s : String)
    → proving_system_id_to_string t ≡ ok s
    → (string t ≡ returned s) ↔ (t < 4)
unfolding string proving_system_id_to_string
string_agrees zero s h = ground arith
string_agrees (suc zero) s h = ground arith
string_agrees (suc (suc zero)) s h = ground arith
string_agrees (suc (suc (suc zero))) s h = ground arith
string_agrees (suc (suc (suc (suc zero)))) s h = ground (arith, eq_iff "Halo2IPA" "Halo2KZG")
string_agrees (suc (suc (suc (suc (suc zero))))) s h = ground arith
string_agrees (suc (suc (suc (suc (suc (suc n)))))) s h = ground arith
