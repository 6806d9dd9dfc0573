-- ===== src/TaskSender/Text.antt =====
-- The texts of task_sender/cmd/main.go: the name of the proving system, and the key of an upload.
pub mod Padding
use Prim.Native.Char.{Char, code}
use Prim.Native.String.{◌++◌ as append}
use beluuga.Prelude.{
  ℕ, ◌/◌, ◌%◌, ◌==◌, ◌&&◌, ◌||◌, Bool, true, false, Option, none, some, String, List, get_elem?,
  leb, if◌then◌else◌,
}
use beluuga.Prelude.Keys.{nat_eq, string_eq}
use beluuga.Errors.{Result, ok, err, unsupported_proving_system}
use beluuga.ProvingSystem.{
  ProvingSystemId, gnark_plonk_bls12_381, gnark_plonk_bn254, groth16_bn254, sp1, halo2_kzg,
  halo2_ipa,
}

-- `unicode.IsSpace`: the white space of Latin-1, then the property White_Space.
abbrev pub is_space : ℕ → Bool
is_space c =
    (leb 9 c && leb c 13)
    || (c == 32)
    || (c == 133)
    || (c == 160)
    || (c == 5760)
    || (leb 8192 c && leb c 8202)
    || (c == 8232)
    || (c == 8233)
    || (c == 8239)
    || (c == 8287)
    || (c == 12288)

unfoldable pub trim_left : String → String
trim_left String.[] = String.[]
trim_left (String.◌∷◌ c s) =
    let rest = trim_left s in if is_space (code c) then rest else String.◌∷◌ c s

-- Drops `c` in front of what is left of the text, if nothing is.
abbrev pub trim_cons : Char → String → String
trim_cons c String.[] = if is_space (code c) then String.[] else String.◌∷◌ c String.[]
trim_cons c (String.◌∷◌ d s) = String.◌∷◌ c (String.◌∷◌ d s)

unfoldable pub trim_right : String → String
trim_right String.[] = String.[]
trim_right (String.◌∷◌ c s) = trim_cons c (trim_right s)

-- `strings.TrimSpace`
unfoldable pub trim_space : String → String
unfolding trim_left trim_right
trim_space s = trim_left (trim_right s)

abbrev pub by_name : String → Result ProvingSystemId
by_name s =
    if s == "plonk_bls12_381"
    then ok gnark_plonk_bls12_381
    else if s == "plonk_bn254"
    then ok gnark_plonk_bn254
    else if s == "groth16_bn254"
    then ok groth16_bn254
    else if s == "sp1"
    then ok sp1
    else if s == "halo2_kzg"
    then ok halo2_kzg
    else if s == "halo2_ipa"
    then ok halo2_ipa
    else err (unsupported_proving_system s)

unfoldable pub parse_proving_system : String → Result ProvingSystemId
unfolding trim_space
parse_proving_system s = by_name (trim_space s)
