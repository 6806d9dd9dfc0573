-- ===== src/Samples/Infinite.antt =====
-- A round of the infinite task sender with its generator, and an operator that downloads its tasks.
pub mod Loop
use text.Mathlib.TextLemmas.{append_cancel_left}
use beluuga.Prelude.{
  ℕ, suc, length, take_all, some, true, String, List, [], ◌∷◌, ◌≡◌, ◌∙◌, if◌then◌else◌, sym, ap,
  arith,
}
use beluuga.Prelude.Int.{ℤ, pos, ltb_ℤ}
use beluuga.Prelude.Keys.{nat_eq}
use beluuga.Errors.{ok, err, proof_too_large, ok-injective}
use beluuga.Types.{Bytes32}
use beluuga.Go.Outcome.{returned}
use beluuga.Go.Slice.{bytes, of_list}
use beluuga.ProvingSystem.{groth16_bn254}
use beluuga.Operator.Data.{VerificationData}
use beluuga.Operator.Download.{Http, get_batch_from_s3}
use beluuga.Operator.Gnark.{bn254, verify_with, verify_groth16_proof}
use beluuga.Operator.Verify.{Verifiers, verify}
use beluuga.Operator.Process.Accept.{AllVerify}
use beluuga.TaskSender.Text.{parse_proving_system}
use beluuga.TaskSender.Upload.{Flags, Cloud, one_proof, paths, get_and_upload_proof_data}
use beluuga.TaskSender.Upload.Uploaded.{
  Public, ReadsBackBatch, Serves, asked, FilesRead, HoldsFiles, upload_downloads,
}
use beluuga.Samples.Circuits.{InequalityCircuit, inequality_define}
use beluuga.Samples.Scripts.{
  Files, Prover, ineq_stem, ineq_names, groth16_setup, generate_ineq_proof,
}
use beluuga.Samples.Scripts.Accepted.{FileLaws, Differ, ReadsBack, Accepts, make_sample-Accepts}

-- The three names for a number are different.
ineq_names-Differ : (x : ℤ) → Differ (ineq_names x)
ineq_names-Differ x = record {
  key_proof = λ e. cc (append_cancel_left (ineq_stem x) "_groth16.vk" "_groth16.proof" e);
  witness_proof = λ e. cc (append_cancel_left (ineq_stem x) "_groth16.pub" "_groth16.proof" e);
  witness_key = λ e. cc (append_cancel_left (ineq_stem x) "_groth16.pub" "_groth16.vk" e);
}

module _ (http : Http) (cloud : Cloud http.World) (files : Files http.World) (libs : Verifiers)
    (prover : Prover libs.groth16 http.World)
    (setup : prover.Ccs → http.World → http.World × (prover.ProvingKey × libs.groth16.VerifyingKey))
    (laws : FileLaws files) where
  open laws use {content}

  -- Documented of `os.ReadFile`: it gives what the path holds, and changes no file.
  pub record ReadLaws : Type 0 where
    pub read_path :
        (path : String) (w : http.World) {held : List ℕ}
        → content w path ≡ some held
        → (cloud.read_file path w).1 ≡ ok held
    pub read_any :
        (path other : String) (w : http.World)
        → content (cloud.read_file path w).0 other ≡ content w other

  read_once :
      (path : String) (w : http.World) {w' : http.World} {held got : List ℕ}
      → ReadLaws
      → content w path ≡ some held
      → cloud.read_file path w ≡ (w', ok got)
      → (got ≡ held) × ((other : String) → content w' other ≡ content w other)
  read_once path w reads h e = (
    ok-injective (sym (ap (λ r. r.1) e) ∙ reads.read_path path w h),
    λ other. ap (λ v. content v other) (sym (ap (λ r. r.0) e)) ∙ reads.read_any path other w,
  )

  asked-suc :
      (flags : Flags) (n : ℕ)
      → let names = ineq_names (pos (suc n)) in
        asked flags (suc n) ≡ (names.proof, names.witness, names.key)
  asked-suc flags n = ground arith

  -- What the task sender reads of three files that hold an accepted proof.
  read-accepted :
      (flags : Flags) (n : ℕ) (w : http.World) {proof pub_input key : List ℕ}
      → ReadLaws
      → Accepts files libs.groth16 prover laws bn254 (ineq_names (pos (suc n))) w
      → FilesRead cloud (asked flags (suc n)) w proof pub_input key
      → verify_with libs.groth16 bn254 proof pub_input key ≡ true
  read-accepted flags n w reads acc r =
      let names = ineq_names (pos (suc n)) in
      let e = asked-suc flags n in
      let (got_proof, keep1) =
        read_once names.proof w reads acc.proof_file
          (ap (λ p. cloud.read_file p.0 w) (sym e) ∙ r.proof_read) in
      let (got_input, keep2) =
        read_once names.witness r.behind_proof reads (keep1 names.witness ∙ acc.witness_file)
          (ap (λ p. cloud.read_file p.1 r.behind_proof) (sym e) ∙ r.pub_input_read) in
      let (got_key, _) =
        read_once names.key r.behind_pub_input reads
          (keep2 names.key ∙ keep1 names.key ∙ acc.key_file)
          (ap (λ p. cloud.read_file p.2 r.behind_pub_input) (sym e) ∙ r.key_read) in
      rw (got_proof, got_input, got_key) acc.accepted

  groth16-verify :
      (v : VerificationData)
      → v.proving_system_id ≡ groth16_bn254
      → verify libs v
        ≡ returned (
            verify_with libs.groth16 bn254
              (bytes v.proof)
              (bytes v.pub_input)
              (bytes v.verification_key))
  unfolding verify verify_groth16_proof
  groth16-verify v e = ground arith

  HoldsFiles-AllVerify :
      (v : VerificationData) {proof pub_input key : List ℕ}
      → verify_with libs.groth16 bn254 proof pub_input key ≡ true
      → HoldsFiles groth16_bn254 proof pub_input key v
      → AllVerify libs (v ∷ [])
  HoldsFiles-AllVerify v good holds = (
    groth16-verify v holds.has_id
        ∙ ap returned (rw (holds.holds_proof, holds.holds_pub_input, holds.holds_key) good),
    tt,
  )

  -- What an operator finds at the pointer of a task: the uploaded bytes, of which the root is the hash, and
  -- in them one proof, which verifies; it gets that, unless its limit is below the number of bytes.
  pub record OneVerifies (max_batch_size : ℤ) (root : Bytes32) (pointer : String) (w : http.World)
      : Type 0 where
    pub upload : List ℕ
    pub is_root : root ≡ cloud.sum256 upload
    pub served : Serves http pointer upload w
    pub sample_data : VerificationData
    pub verifies : AllVerify libs (sample_data ∷ [])
    pub downloads : (get_batch_from_s3 http max_batch_size pointer w).1 ≡ (
        if ltb_ℤ max_batch_size (pos (length upload))
        then err proof_too_large
        else ok (sample_data ∷ []))

  -- Where files hold what is written to them, gnark and JSON read back what they wrote, and the bucket
  -- is served: a round of the infinite task sender for `groth16_bn254`, up to the upload.
  pub round-OneVerifies :
      (max_batch_size : ℤ) (flags : Flags) (n : ℕ) (w : http.World) {w1 w2 : http.World}
      {root : Bytes32} {pointer : String}
      → ReadLaws
      → ReadsBack files libs.groth16 prover laws bn254
      → Public http cloud "https://storage.alignedlayer.com/"
      → ReadsBackBatch http cloud
      → parse_proving_system flags.proving_system ≡ ok groth16_bn254
      → generate_ineq_proof files libs.groth16 prover setup (pos (suc n)) w ≡ returned (w1, ok tt)
      → get_and_upload_proof_data cloud flags (suc n) w1 ≡ returned (w2, ok (root, pointer))
      → OneVerifies max_batch_size root pointer w2
  unfolding generate_ineq_proof
  round-OneVerifies max_batch_size flags n w {w1} reads back at json named made uploaded =
      let acc =
        make_sample-Accepts files libs.groth16 prover laws InequalityCircuit bn254 inequality_define
          (groth16_setup files libs.groth16 prover setup) (record { x = pos (suc n) })
          (ineq_names (pos (suc n))) w (ineq_names-Differ (pos (suc n))) back made in
      let (id, proof, pub_input, key, upload, v, parsed, read, is_root, _, served, holds, got) =
        upload_downloads http cloud max_batch_size flags (suc n) w1 at json uploaded in
      let good = read-accepted flags n w1 reads acc read in
      let id_is : id ≡ groth16_bn254 = ok-injective (sym parsed ∙ named) in
      record {
        upload = upload;
        is_root = is_root;
        served = served;
        sample_data = v;
        verifies = HoldsFiles-AllVerify v good (rw id_is at holds);
        downloads = got;
      }
