-- ===== src/Examples/Sender.antt =====
-- The batcher's verifiers and the task sender, in a small world.
use beluuga.Prelude.{ℕ, ◌≡◌, ◌==◌, ◌&&◌, Bool, List, [], ◌∷◌, length, refl, arith, if◌then◌else◌}
use beluuga.Prelude.Keys.{nat_eq, string_eq, bytes_eq, list_beq, list_beq_iff}
use beluuga.Prelude.Int.{ℤ, pos, ltb_ℤ}
use beluuga.Errors.{Result, ok, err, proof_too_large, library}
use beluuga.Go.Outcome.{Outcome, returned}
use beluuga.Go.Slice.{Slice, bytes, of_list}
use beluuga.ProvingSystem.{ProvingSystemId, gnark_plonk_bls12_381, gnark_plonk_bn254, groth16_bn254}
use beluuga.Operator.Data.{VerificationData}
use beluuga.Operator.Download.{Http, get_batch_from_s3}
use beluuga.Operator.Verify.{verify}
use beluuga.Batcher.{
  ListRef, verify_plonk_proof_bls12_381, verify_plonk_proof_bn254, verify_groth16_proof_bn254,
}
use beluuga.Batcher.Agrees.{IsPassed, batcher_agrees}
use beluuga.TaskSender.Text.{parse_proving_system}
use beluuga.TaskSender.Upload.{
  Flags, Cloud, one_proof, object_url, encode_to_string, get_and_upload_proof_data,
}
use beluuga.TaskSender.Upload.Uploaded.{
  Public, ReadsBackBatch, Serves, HoldsFiles, FilesRead, upload_downloads,
}
use beluuga.Examples.Batches.{libs}

-- The memory of a caller that holds the bytes 7 and 9 everywhere.
abbrev memory : ℕ → ℤ → Outcome (List ℕ)
memory ptr n = returned (7 ∷ 9 ∷ [])

abbrev two_bytes : Slice
two_bytes = of_list (7 ∷ 9 ∷ [])

abbrev gnark_data : VerificationData
gnark_data = record {
  proving_system_id = 1;
  proof = two_bytes;
  pub_input = two_bytes;
  verification_key = two_bytes;
  vm_program_code = of_list [];
}

abbrev a_ref : ListRef
a_ref = record { ptr = 4096; len = 2 }

ref-IsPassed : IsPassed memory two_bytes a_ref
ref-IsPassed = record { short = omega arith; held = refl }

batcher_agrees_example :
    (verify_plonk_proof_bls12_381 memory libs.plonk libs.groth16 a_ref a_ref a_ref
      ≡ verify libs (record gnark_data { proving_system_id = gnark_plonk_bls12_381 }))
    × (verify_plonk_proof_bn254 memory libs.plonk libs.groth16 a_ref a_ref a_ref
        ≡ verify libs (record gnark_data { proving_system_id = gnark_plonk_bn254 }))
    × (verify_groth16_proof_bn254 memory libs.plonk libs.groth16 a_ref a_ref a_ref
        ≡ verify libs (record gnark_data { proving_system_id = groth16_bn254 }))
batcher_agrees_example =
    batcher_agrees memory libs gnark_data a_ref a_ref a_ref ref-IsPassed ref-IsPassed ref-IsPassed

-- A store that keeps one object, and a JSON library that knows one batch.
abbrev stored_batch : List VerificationData
stored_batch = one_proof 3 (7 ∷ []) (7 ∷ []) (7 ∷ [])

is_stored : VerificationData → Bool
is_stored v =
    (v.proving_system_id == 3)
    && (bytes v.proof == 7 ∷ [])
    && (bytes v.pub_input == 7 ∷ [])
    && (bytes v.verification_key == [])
    && (bytes v.vm_program_code == 7 ∷ [])

marshal_stored : List VerificationData → Result (List ℕ)
unfolding is_stored
marshal_stored (v ∷ []) = if is_stored v then ok (5 ∷ 6 ∷ []) else err (library "not encodable")
marshal_stored _ = err (library "not encodable")

abbrev http : Http
http = record {
  World = List ℕ;
  Body = List ℕ;
  head = λ url w. (w, ok (record { status_code = 200; content_length = pos (length w) }));
  get = λ url w. (w, ok w);
  read_all = λ b w. (w, ok b);
  close = λ b w. w;
  unmarshal = λ b. ok stored_batch;
}

abbrev cloud : Cloud (List ℕ)
cloud = record {
  Session = ℕ;
  read_file = λ path w. (w, ok (7 ∷ []));
  marshal = marshal_stored;
  sum256 = λ b. b;
  load_env = λ w. (w, ok tt);
  getenv = λ name w. "set";
  new_session = λ region access secret. ok 1;
  put_object = λ session bucket key content w. (content, ok tt);
}

abbrev flags : Flags
flags = record {
  proving_system = "sp1 ";
  proof = "proof";
  public_input = "input";
  verification_key = "elf";
}

public : Public http cloud "https://storage.alignedlayer.com/"
public = record {
  bucket = "set";
  named = λ w e. refl;
  serves = λ session key content w put. record {
    head_ok = refl;
    body = content;
    get_ok = refl;
    read_ok = refl;
  };
}

reads_back : ReadsBackBatch http cloud
unfolding one_proof marshal_stored
reads_back [] content h = absurd (cc)
reads_back (v ∷ v' ∷ vs) content h = absurd (cc)
reads_back (v ∷ []) content h = (
  stored_batch,
  refl,
  (
    ground (
      arith,
      list_beq_iff (bytes v.proof) (7 ∷ []),
      list_beq_iff (bytes v.pub_input) (7 ∷ []),
      list_beq_iff (bytes v.verification_key) [],
      list_beq_iff (bytes v.vm_program_code) (7 ∷ []),
    ),
    tt,
  ),
)

upload_downloads_example :
    (id : ProvingSystemId) × (proof : List ℕ) × (pub_input : List ℕ) × (key : List ℕ)
    × (content : List ℕ) × (v : VerificationData) × (parse_proving_system "sp1 " ≡ ok id)
    × FilesRead cloud ("proof", "input", "elf") [] proof pub_input key
    × (5 ∷ 6 ∷ [] ≡ content)
    × (object_url (5 ∷ 6 ∷ []) ≡ "https://storage.alignedlayer.com/0506.json")
    × Serves http (object_url (5 ∷ 6 ∷ [])) content (5 ∷ 6 ∷ [])
    × HoldsFiles id proof pub_input key v
    × ((get_batch_from_s3 http (pos 100) (object_url (5 ∷ 6 ∷ [])) (5 ∷ 6 ∷ [])).1
        ≡ (if ltb_ℤ (pos 100) (pos (length content)) then err proof_too_large else ok (v ∷ [])))
unfolding get_and_upload_proof_data marshal_stored list_beq encode_to_string
upload_downloads_example = upload_downloads http cloud (pos 100) flags 0 [] public reads_back refl
