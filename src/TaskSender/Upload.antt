-- ===== src/TaskSender/Upload.antt =====
-- `getAndUploadProofData` and `uploadObjectToS3` of task_sender/cmd/main.go.
pub mod Uploaded
use Prim.Native.String.{◌++◌ as append}
use beluuga.Prelude.{
  ℕ, zero, suc, ltb, ◌/◌, ◌%◌, ◌==◌, ◌||◌, Bool, Option, none, some, String, List, [], ◌∷◌,
  get_elem?, if◌then◌else◌,
}
use beluuga.Prelude.Keys.{nat_eq, string_eq}
use beluuga.Errors.{Error, Result, ok, err, missing_aws_variables}
use beluuga.Types.{Bytes32}
use beluuga.Go.Script.{Script, ◌>>=◌, ◌>>◌, give, call}
use beluuga.Go.Outcome.{Outcome, returned, panicked, exited, blocked}
use beluuga.Go.Slice.{of_list}
use beluuga.ProvingSystem.{ProvingSystemId, sp1}
use beluuga.Operator.Data.{VerificationData}
use beluuga.TaskSender.Text.{parse_proving_system}

-- The flags that are read.
pub record Flags : Type 0 where
  pub proving_system : String
  pub proof : String
  pub public_input : String
  pub verification_key : String

-- The file system, the environment, the JSON and hash libraries, and the client of S3.
pub record Cloud (W : Type 0) : Type 1 where
  pub Session : Type 0
  pub read_file : String → W → W × Result (List ℕ)
  pub marshal : List VerificationData → Result (List ℕ)
  pub sum256 : List ℕ → Bytes32
  pub load_env : W → W × Result (Unit {0})
  pub getenv : String → W → String
  pub new_session : String → String → String → Result Session
  pub put_object : Session → String → String → List ℕ → W → W × Result (Unit {0})

abbrev digits : List String
digits =
    "0" ∷ "1" ∷ "2" ∷ "3" ∷ "4" ∷ "5" ∷ "6" ∷ "7" ∷ "8" ∷ "9" ∷ "a" ∷ "b" ∷ "c" ∷ "d" ∷ "e" ∷ "f"
    ∷ []

abbrev text_or_empty : Option String → String
text_or_empty none = ""
text_or_empty (some s) = s

abbrev digit : ℕ → String
digit n = text_or_empty (get_elem? digits n)

-- `hex.EncodeToString`
unfoldable pub encode_to_string : List ℕ → String
encode_to_string [] = ""
encode_to_string (b ∷ bs) = append (digit (b / 16)) (append (digit (b % 16)) (encode_to_string bs))

-- `strconv.Itoa` on a number that is not negative, with as many steps as the number allows.
abbrev itoa_within : ℕ → ℕ → String
itoa_within zero n = ""
itoa_within (suc fuel) n =
    let front = itoa_within fuel (n / 10) in
    if ltb n 10 then digit n else append front (digit (n % 10))

abbrev pub itoa : ℕ → String
itoa n = itoa_within (suc n) n

-- The batch of one proof. Only SP1 has its key in the field for the program's code.
unfoldable pub one_proof : ProvingSystemId → List ℕ → List ℕ → List ℕ → List VerificationData
one_proof id proof pub_input key =
    if id == sp1
    then record {
      proving_system_id = id;
      proof = of_list proof;
      pub_input = of_list pub_input;
      verification_key = of_list [];
      vm_program_code = of_list key;
    }
      ∷ []
    else record {
      proving_system_id = id;
      proof = of_list proof;
      pub_input = of_list pub_input;
      verification_key = of_list key;
      vm_program_code = of_list [];
    }
      ∷ []

abbrev pub object_key : Bytes32 → String
object_key root = append (encode_to_string root) ".json"

abbrev pub object_url : Bytes32 → String
object_url root = append "https://storage.alignedlayer.com/" (object_key root)

module _ {W : Type 0} (cloud : Cloud W) where
  -- `log.Fatalf` where the file `.env` cannot be loaded.
  abbrev pub load_or_exit : Script W (Unit {0})
  load_or_exit w = elim (cloud.load_env w).1 [
    | ok t ↦ returned ((cloud.load_env w).0, ok tt)
    | err e ↦ exited
  ]

  -- The four variables, region, access key, secret and bucket.
  abbrev pub variables : Script W (String × String × String × String)
  variables w =
      let region = cloud.getenv "AWS_REGION" w in
      let access = cloud.getenv "AWS_ACCESS_KEY" w in
      let secret = cloud.getenv "AWS_SECRET" w in
      let bucket = cloud.getenv "AWS_S3_BUCKET" w in
      if region == "" || access == "" || secret == "" || bucket == ""
      then returned (w, err missing_aws_variables)
      else returned (w, ok (region, access, secret, bucket))

  unfoldable pub upload_object_to_s3 : List ℕ → Bytes32 → Script W String
  upload_object_to_s3 bytes root = do
    load_or_exit
    v ← variables
    session ← give (cloud.new_session v.0 v.1 v.2)
    call (cloud.put_object session v.3 (object_key root) bytes)
    give (ok (object_url root))

  -- The files of the flags, or those that the generator has made for `x`.
  abbrev pub paths : Flags → ℕ → String × String × String
  paths flags x =
      let stem =
        append "task_sender/test_examples/gnark_groth16_bn254_infinite_script/infinite_proofs/ineq_"
          (itoa x) in
      if x == 0
      then (flags.proof, flags.public_input, flags.verification_key)
      else (append stem "_groth16.proof", append stem "_groth16.pub", append stem "_groth16.vk")

  unfoldable pub get_and_upload_proof_data : Flags → ℕ → Script W (Bytes32 × String)
  unfolding parse_proving_system one_proof upload_object_to_s3
  get_and_upload_proof_data flags x = do
    id ← give (parse_proving_system flags.proving_system)
    proof ← call (cloud.read_file (paths flags x).0)
    pub_input ← call (cloud.read_file (paths flags x).1)
    key ← call (cloud.read_file (paths flags x).2)
    bytes ← give (cloud.marshal (one_proof id proof pub_input key))
    pointer ← upload_object_to_s3 bytes (cloud.sum256 bytes)
    give (ok (cloud.sum256 bytes, pointer))
