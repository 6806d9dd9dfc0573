-- ===== src/ProvingSystem.antt =====
-- common/proving_systems.go: the ids of the proving systems, their names and their JSON form.
pub mod Names
pub mod Json
use text.Mathlib.Text.{◌==◌ as str_eq}
use beluuga.Prelude.{ℕ, ◌==◌, String, Option, none, some, List, [], ◌∷◌, get_elem?, if◌then◌else◌}
use beluuga.Prelude.Keys.{nat_eq, string_eq}
use beluuga.Errors.{Error, Result, ok, err, unknown_proving_system, unknown_proving_system_id}
use beluuga.Go.Outcome.{Outcome, returned, panicked}

-- A `uint16`.
abbrev pub ProvingSystemId : Type 0
ProvingSystemId = ℕ

abbrev pub gnark_plonk_bls12_381 : ProvingSystemId
gnark_plonk_bls12_381 = 0

abbrev pub gnark_plonk_bn254 : ProvingSystemId
gnark_plonk_bn254 = 1

abbrev pub groth16_bn254 : ProvingSystemId
groth16_bn254 = 2

abbrev pub sp1 : ProvingSystemId
sp1 = 3

abbrev pub halo2_kzg : ProvingSystemId
halo2_kzg = 4

abbrev pub halo2_ipa : ProvingSystemId
halo2_ipa = 5

-- The array of the method `String`, which has five entries.
abbrev string_table : List String
string_table = "GnarkPlonkBls12_381" ∷ "GnarkPlonkBn254" ∷ "Groth16Bn254" ∷ "SP1" ∷ "Halo2IPA" ∷ []

abbrev index_or_panic : Option String → Outcome String
index_or_panic none = panicked
index_or_panic (some s) = returned s

-- The method `String`: an index out of range panics.
unfoldable pub string : ProvingSystemId → Outcome String
string t = index_or_panic (get_elem? string_table t)

-- `ProvingSystemIdFromString` returns the id 0 beside its error.
unfoldable pub proving_system_id_from_string : String → ProvingSystemId × Option Error
proving_system_id_from_string s =
    if s == "GnarkPlonkBls12_381"
    then (gnark_plonk_bls12_381, none)
    else if s == "GnarkPlonkBn254"
    then (gnark_plonk_bn254, none)
    else if s == "Groth16Bn254"
    then (groth16_bn254, none)
    else if s == "SP1"
    then (sp1, none)
    else if s == "Halo2KZG"
    then (halo2_kzg, none)
    else if s == "Halo2IPA"
    then (halo2_ipa, none)
    else (0, some (unknown_proving_system s))

unfoldable pub proving_system_id_to_string : ProvingSystemId → Result String
proving_system_id_to_string t =
    if t == gnark_plonk_bls12_381
    then ok "GnarkPlonkBls12_381"
    else if t == gnark_plonk_bn254
    then ok "GnarkPlonkBn254"
    else if t == groth16_bn254
    then ok "Groth16Bn254"
    else if t == sp1
    then ok "SP1"
    else if t == halo2_kzg
    then ok "Halo2KZG"
    else if t == halo2_ipa
    then ok "Halo2IPA"
    else err (unknown_proving_system_id t)
