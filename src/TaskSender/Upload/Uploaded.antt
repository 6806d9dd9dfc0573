-- ===== src/TaskSender/Upload/Uploaded.antt =====
-- An upload, and what an operator downloads of it.
use Prim.Native.String.{◌++◌ as append}
use beluuga.Prelude.Keys.{nat_eq, string_eq}
use beluuga.Prelude.{
  ℕ, zero, suc, ◌==◌, ◌||◌, inl, inr, take_all, Bool-cases, ◌≡◌, String, List, [], ◌∷◌, length,
  refl, ap, sym, ◌∙◌, if◌then◌else◌, arith,
}
use beluuga.Prelude.Int.{ℤ, pos, ltb_ℤ}
use beluuga.Errors.{ok-injective, Result-cases, ok, err, proof_too_large}
use beluuga.Types.{Bytes32}
use beluuga.Go.Outcome.{returned, returned-injective}
use beluuga.Go.Slice.{bytes, of_list}
use beluuga.ProvingSystem.{ProvingSystemId}
use beluuga.Operator.Data.{VerificationData}
use beluuga.Operator.Download.{Http, get_batch_from_s3, fetch, then_close}
use beluuga.TaskSender.Text.{parse_proving_system}
use beluuga.Go.Script.{give, given, call, went}
use beluuga.TaskSender.Upload.{
  Flags, Cloud, itoa, encode_to_string, one_proof, object_key, object_url, upload_object_to_s3,
  load_or_exit, variables, paths, get_and_upload_proof_data,
}

-- Two batches with the same ids and contents, whatever the capacities of their slices.
abbrev pub SameData : VerificationData → VerificationData → Type 0
SameData v v' =
    (v.proving_system_id ≡ v'.proving_system_id)
    × (bytes v.proof ≡ bytes v'.proof)
    × (bytes v.pub_input ≡ bytes v'.pub_input)
    × (bytes v.verification_key ≡ bytes v'.verification_key)
    × (bytes v.vm_program_code ≡ bytes v'.vm_program_code)

abbrev pub SameBatch : List VerificationData → List VerificationData → Type 0
SameBatch [] [] = Unit
SameBatch [] (v ∷ vs) = ⊥
SameBatch (v ∷ vs) [] = ⊥
SameBatch (v ∷ vs) (v' ∷ vs') = SameData v v' × SameBatch vs vs'

-- What `HEAD` and `GET` of a URL answer once it holds these bytes.
pub record Serves (http : Http) (url : String) (content : List ℕ) (w : http.World) : Type 0 where
  pub head_ok :
      (http.head url w).1 ≡ ok (record { status_code = 200; content_length = pos (length content) })
  pub body : http.Body
  pub get_ok : (http.get url (http.head url w).0).1 ≡ ok body
  pub read_ok : (http.read_all body (http.get url (http.head url w).0).0).1 ≡ ok content

-- The files that a round is about: those of the flags, or those that were made for `x`.
abbrev sample : ℕ → String → String
sample x suffix =
    append
      (append "task_sender/test_examples/gnark_groth16_bn254_infinite_script/infinite_proofs/ineq_"
        (itoa x))
      suffix

abbrev pub asked : Flags → ℕ → String × String × String
asked flags zero = (flags.proof, flags.public_input, flags.verification_key)
asked flags (suc n) =
    (sample (suc n) "_groth16.proof", sample (suc n) "_groth16.pub", sample (suc n) "_groth16.vk")

-- The data of one proof, of the given proving system, with the contents of its three files. The third
-- is the program for SP1, and the key for every other system.
pub record HoldsFiles (id : ProvingSystemId) (proof pub_input key : List ℕ) (v : VerificationData)
    : Type 0 where
  pub has_id : v.proving_system_id ≡ id
  pub holds_proof : bytes v.proof ≡ proof
  pub holds_pub_input : bytes v.pub_input ≡ pub_input
  pub holds_key : bytes v.verification_key ≡ (if id == 3 then [] else key)
  pub holds_program : bytes v.vm_program_code ≡ (if id == 3 then key else [])

bytes-of_list : (xs : List ℕ) → bytes (of_list xs) ≡ xs
bytes-of_list xs = take_all (length xs) xs (omega arith)

one_proof-HoldsFiles :
    (id : ProvingSystemId) (proof pub_input key : List ℕ)
    → (v : VerificationData) × (one_proof id proof pub_input key ≡ v ∷ [])
      × HoldsFiles id proof pub_input key v
unfolding one_proof
one_proof-HoldsFiles id proof pub_input key = elim (Bool-cases (id == 3)) [
  | inl is_sp1 ↦ (
    record {
      proving_system_id = id;
      proof = of_list proof;
      pub_input = of_list pub_input;
      verification_key = of_list [];
      vm_program_code = of_list key;
    },
    rw is_sp1 refl,
    record {
      has_id = refl;
      holds_proof = bytes-of_list proof;
      holds_pub_input = bytes-of_list pub_input;
      holds_key = rw is_sp1 refl;
      holds_program = rw is_sp1 (bytes-of_list key);
    },
  )
  | inr other ↦ (
    record {
      proving_system_id = id;
      proof = of_list proof;
      pub_input = of_list pub_input;
      verification_key = of_list key;
      vm_program_code = of_list [];
    },
    rw other refl,
    record {
      has_id = refl;
      holds_proof = bytes-of_list proof;
      holds_pub_input = bytes-of_list pub_input;
      holds_key = rw other (bytes-of_list key);
      holds_program = rw other refl;
    },
  )
]

-- A batch that is the same as one of a single proof.
SameBatch-HoldsFiles :
    (batch : List VerificationData) (v : VerificationData) {id : ProvingSystemId}
    {proof pub_input key : List ℕ}
    → SameBatch batch (v ∷ [])
    → HoldsFiles id proof pub_input key v
    → (v' : VerificationData) × (batch ≡ v' ∷ []) × HoldsFiles id proof pub_input key v'
SameBatch-HoldsFiles [] v same holds = absurd same
SameBatch-HoldsFiles (v' ∷ []) v ((id, proof, pub_input, key, program), _) holds = (
  v',
  refl,
  record {
    has_id = id ∙ holds.has_id;
    holds_proof = proof ∙ holds.holds_proof;
    holds_pub_input = pub_input ∙ holds.holds_pub_input;
    holds_key = key ∙ holds.holds_key;
    holds_program = program ∙ holds.holds_program;
  },
)
SameBatch-HoldsFiles (v' ∷ v'' ∷ vs) v same holds = absurd same.1

module _ {W : Type 0} (cloud : Cloud W) where
  -- What reading three files, one after the other, gives.
  pub record FilesRead (names : String × String × String) (w : W) (proof pub_input key : List ℕ)
      : Type 0 where
    pub behind_proof : W
    pub behind_pub_input : W
    pub behind_key : W
    pub proof_read : cloud.read_file names.0 w ≡ (behind_proof, ok proof)
    pub pub_input_read : cloud.read_file names.1 behind_proof ≡ (behind_pub_input, ok pub_input)
    pub key_read : cloud.read_file names.2 behind_pub_input ≡ (behind_key, ok key)

  paths-asked : (flags : Flags) (x : ℕ) → paths cloud flags x ≡ asked flags x
  paths-asked flags zero = ground arith
  paths-asked flags (suc n) = ground arith

  load_or_exit-loads :
      (w : W) {w' : W}
      → load_or_exit cloud w ≡ returned (w', ok tt)
      → cloud.load_env w ≡ (w', ok tt)
  load_or_exit-loads w {w'} h = elim (Result-cases (cloud.load_env w).1) [
    | inl (t, good) ↦ ground (arith, good)
    | inr (e, bad) ↦ absurd (cc (rw (load_or_exit, bad) at h))
  ]

  -- The bucket is the one of the environment.
  variables-bucket :
      (w : W) {w' : W} {v : String × String × String × String}
      → variables cloud w ≡ returned (w', ok v)
      → v.3 ≡ cloud.getenv "AWS_S3_BUCKET" w
  variables-bucket w {w'} {v} h =
      let bucket = cloud.getenv "AWS_S3_BUCKET" w in
      elim (Bool-cases (
        cloud.getenv "AWS_REGION" w == ""
        || cloud.getenv "AWS_ACCESS_KEY" w == ""
        || cloud.getenv "AWS_SECRET" w == ""
        || bucket == "")) [
          | inl missing ↦ absurd (cc (rw missing at h))
          | inr set ↦ sym (
              ap (λ o. elim o [ ok v' ↦ v'.3 | err e ↦ bucket ])
                (ap (λ r. r.1) (returned-injective (rw set at h))))
        ]

module _ (http : Http) (cloud : Cloud http.World) where
  -- Documented of S3: a bucket that is public has an address, and an object that was put into it without
  -- an error is served at that address under the object's key. Behind a load of `.env`, the
  -- variable `AWS_S3_BUCKET` names the bucket.
  pub record Public (address : String) : Type 0 where
    pub bucket : String
    pub named :
        (w : http.World) {w' : http.World}
        → cloud.load_env w ≡ (w', ok tt)
        → cloud.getenv "AWS_S3_BUCKET" w' ≡ bucket
    pub serves :
        (session : cloud.Session) (key : String) (content : List ℕ) (w : http.World)
        → (cloud.put_object session bucket key content w).1 ≡ ok tt
        → Serves http (append address key) content (cloud.put_object session bucket key content w).0

  -- `json.Unmarshal` reads back what `json.Marshal` wrote.
  abbrev pub ReadsBackBatch : Type 0
  ReadsBackBatch =
      (batch : List VerificationData) (content : List ℕ)
      → cloud.marshal batch ≡ ok content
      → (batch' : List VerificationData) × (http.unmarshal content ≡ ok batch')
        × SameBatch batch' batch

  -- What the URL of an upload gives an operator.
  served :
      (max_batch_size : ℤ) (url : String) (content : List ℕ) (w : http.World)
      (batch : List VerificationData)
      → Serves http url content w
      → http.unmarshal content ≡ ok batch
      → (get_batch_from_s3 http max_batch_size url w).1
        ≡ (if ltb_ℤ max_batch_size (pos (length content)) then err proof_too_large else ok batch)
  unfolding get_batch_from_s3 fetch then_close
  served max_batch_size url content w batch s e = ground (arith, s.head_ok, s.get_ok, s.read_ok, e)

  uploaded :
      (content : List ℕ) (root : Bytes32) (w : http.World) {w' : http.World} {pointer : String}
      → Public "https://storage.alignedlayer.com/"
      → upload_object_to_s3 cloud content root w ≡ returned (w', ok pointer)
      → (pointer ≡ object_url root) × Serves http pointer content w'
  unfolding upload_object_to_s3
  uploaded content root w at h = went (load_or_exit cloud) _ w h (λ w1 t e1 h1.
      went (variables cloud) _ w1 h1 (λ w2 v e2 h2.
        went (give (cloud.new_session v.0 v.1 v.2)) _ w2 h2 (λ w3 session e3 h3.
          went (call (cloud.put_object session v.3 (object_key root) content)) _ w3 h3
            (λ w4 t4 e4 h4.
              let bucket =
                variables-bucket cloud w1 e2 ∙ at.named w (load_or_exit-loads cloud w e1) in
              let put = returned-injective (rw bucket at e4) in
              let end = returned-injective h4 in
              rw (← ok-injective (ap (λ r. r.1) end)) (
                refl,
                rw (← (ap (λ r. r.0) put ∙ ap (λ r. r.0) end))
                    (at.serves session (object_key root) content w3 (ap (λ r. r.1) put)),
              )))))

  -- Let the bucket that the environment names be served at https://storage.alignedlayer.com/, let JSON
  -- read back what it wrote, and let the upload have gone through. Then the pointer is that address with
  -- the task's root in hex and ".json"; the root is the hash of the uploaded bytes, which the pointer
  -- serves; and an operator that follows it downloads one proof, unless its limit is below the number of
  -- these bytes: the proof has the id of the name and the contents of the three files, those of the
  -- flags for `x = 0` and those made for `x` otherwise.
  pub upload_downloads :
      (max_batch_size : ℤ) (flags : Flags) (x : ℕ) (w : http.World) {w' : http.World}
      {root : Bytes32} {pointer : String}
      → Public "https://storage.alignedlayer.com/"
      → ReadsBackBatch
      → get_and_upload_proof_data cloud flags x w ≡ returned (w', ok (root, pointer))
      → (id : ProvingSystemId) × (proof : List ℕ) × (pub_input : List ℕ) × (key : List ℕ)
        × (content : List ℕ) × (v : VerificationData) × (parse_proving_system flags.proving_system
            ≡ ok id)
        × FilesRead cloud (asked flags x) w proof pub_input key
        × (root ≡ cloud.sum256 content)
        × (pointer
            ≡ append "https://storage.alignedlayer.com/" (append (encode_to_string root) ".json"))
        × Serves http pointer content w'
        × HoldsFiles id proof pub_input key v
        × ((get_batch_from_s3 http max_batch_size pointer w').1 ≡ (
            if ltb_ℤ max_batch_size (pos (length content))
            then err proof_too_large
            else ok (v ∷ [])))
  unfolding get_and_upload_proof_data
  upload_downloads max_batch_size flags x w {w'} at reads h =
      went (give (parse_proving_system flags.proving_system)) _ w h (λ w1 id e1 h1.
        went (call (cloud.read_file (paths cloud flags x).0)) _ w1 h1 (λ w2 proof e2 h2.
          went (call (cloud.read_file (paths cloud flags x).1)) _ w2 h2 (λ w3 pub_input e3 h3.
            went (call (cloud.read_file (paths cloud flags x).2)) _ w3 h3 (λ w4 key e4 h4.
              went (give (cloud.marshal (one_proof id proof pub_input key))) _ w4 h4
                (λ w5 content e5 h5.
                  went (upload_object_to_s3 cloud content (cloud.sum256 content)) _ w5 h5
                    (λ w6 url e6 h6.
                      let (batch, back, same) =
                        reads (one_proof id proof pub_input key) content
                          (ap (λ r. r.1) (returned-injective e5)) in
                      let (v, is_one, holds) = one_proof-HoldsFiles id proof pub_input key in
                      let (v', is_batch, holds') =
                        SameBatch-HoldsFiles batch v (rw is_one at same) holds in
                      let (is_url, s) = uploaded content (cloud.sum256 content) w5 at e6 in
                      let end = returned-injective h6 in
                      let answer = ok-injective (ap (λ r. r.1) end) in
                      let names = paths-asked cloud flags x in
                      (
                        id,
                        proof,
                        pub_input,
                        key,
                        content,
                        v',
                        ap (λ r. r.1) (returned-injective e1),
                        rw (← names) (record {
                          behind_proof = w2;
                          behind_pub_input = w3;
                          behind_key = w4;
                          proof_read =
                              ap (cloud.read_file (paths cloud flags x).0) (given e1).1
                              ∙ returned-injective e2;
                          pub_input_read = returned-injective e3;
                          key_read = returned-injective e4;
                        }),
                        sym (ap (λ r. r.0) answer),
                        sym (ap (λ r. r.1) answer) ∙ is_url ∙ ap object_url (ap (λ r. r.0) answer),
                        rw (← ap (λ r. r.1) answer, ← ap (λ r. r.0) end) s,
                        holds',
                        rw (← ap (λ r. r.1) answer, ← ap (λ r. r.0) end, ← is_batch)
                            (served max_batch_size url content w6 batch s back),
                      )))))))
