-- ===== src/Samples/Scripts/Accepted.antt =====
-- What the programs leave in their files, before an operator.
use beluuga.Prelude.{
  ℕ, true, false, Option, none, some, String, List, [], ◌++◌, ◌≡◌, ◌≢◌, ◌∙◌, refl, sym, ap, arith,
}
use beluuga.Prelude.Int.{ℤ}
use beluuga.Errors.{Error, ok}
use beluuga.Go.Outcome.{returned, returned-injective}
use beluuga.Go.Script.{Script, give, given, call, went, went_past_panic, went_past_fatal}
use beluuga.Operator.Gnark.{Curve, Backend, verify_with}
use beluuga.Samples.Scripts.{
  Files, Prover, Names, Define, nil_or, close_all, write_files, make_sample,
}

-- Documented of `os`: a created file is empty, a write appends to its file, and no call changes another
-- file. `content` is what a path holds.
pub record FileLaws {W : Type 0} (files : Files W) : Type 0 where
  pub content : W → String → Option (List ℕ)
  pub path_of : files.File → String
  pub create_path :
      (path : String) (w : W) {w' : W} {f : files.File}
      → files.create path w ≡ (w', ok f)
      → (path_of f ≡ path) × (content w' path ≡ some [])
  pub create_other :
      (path other : String) (w : W) {w' : W} {f : files.File}
      → files.create path w ≡ (w', ok f)
      → other ≢ path
      → content w' other ≡ content w other
  pub write_path :
      (f : files.File) (bytes : List ℕ) (w : W) {w' : W} {before : List ℕ}
      → files.write f bytes w ≡ (w', ok tt)
      → content w (path_of f) ≡ some before
      → content w' (path_of f) ≡ some (before ++ bytes)
  pub write_other :
      (f : files.File) (bytes : List ℕ) (other : String) (w : W) {w' : W}
      → files.write f bytes w ≡ (w', ok tt)
      → other ≢ path_of f
      → content w' other ≡ content w other
  pub close_any :
      (f : files.File) (w : W) (path : String) → content (files.close f w) path ≡ content w path

-- The three names are different.
pub record Differ (names : Names) : Type 0 where
  pub key_proof : names.key ≢ names.proof
  pub witness_proof : names.witness ≢ names.proof
  pub witness_key : names.witness ≢ names.key

module _ {W : Type 0} (files : Files W) (g : Backend) (prover : Prover g W)
    (laws : FileLaws files) where
  open laws use {content, path_of}

  -- The three files hold the encodings.
  abbrev pub Holds : Names → g.Proof → g.VerifyingKey → g.Witness → W → Type 0
  Holds names proof key witness w =
      (content w names.proof ≡ some (prover.proof_bytes proof))
      × (content w names.key ≡ some (prover.key_bytes key))
      × (content w names.witness ≡ some (prover.witness_bytes witness))

  -- A write to the file at `path`.
  writes :
      (f : files.File) {path : String} (bytes : List ℕ) (w : W) {w' : W} {t : Unit {0}}
      → path_of f ≡ path
      → call (files.write f bytes) w ≡ returned (w', ok t)
      → content w path ≡ some []
      → content w' path ≡ some bytes
  writes f bytes w e h old =
      rw (← e) (laws.write_path f bytes w (returned-injective h) (rw (← e) at old))

  keeps :
      (f : files.File) {path : String} (bytes : List ℕ) (other : String) (w : W) {w' : W}
      {t : Unit {0}}
      → path_of f ≡ path
      → call (files.write f bytes) w ≡ returned (w', ok t)
      → other ≢ path
      → content w' other ≡ content w other
  keeps f bytes other w e h ne = laws.write_other f bytes other w (returned-injective h) (rw e ne)

  closed :
      (f k u : files.File) (w : W) {w' : W} (path : String)
      → close_all files g prover f k u w ≡ returned (w', ok tt)
      → content w' path ≡ content w path
  closed f k u w path h =
      ap (λ v. content v path) (sym (ap (λ r. r.0) (returned-injective h)))
      ∙ laws.close_any f _ path
      ∙ laws.close_any k _ path
      ∙ laws.close_any u w path

  write_files-Holds :
      (names : Names) (proof : g.Proof) (key : g.VerifyingKey) (witness : g.Witness) (w : W)
      {w' : W}
      → Differ names
      → write_files files g prover names proof key witness w ≡ returned (w', ok tt)
      → Holds names proof key witness w'
  unfolding write_files
  write_files-Holds names proof key witness w d h =
      went_past_panic (call (files.create names.proof)) _ w h (λ w1 f e1 h1.
        went_past_panic (call (files.create names.key)) _ w1 h1 (λ w2 k e2 h2.
          went_past_panic (call (files.create names.witness)) _ w2 h2 (λ w3 u e3 h3.
            went_past_panic (call (files.write f (prover.proof_bytes proof))) _ w3 h3
              (λ w4 t4 e4 h4.
                went_past_panic (call (files.write k (prover.key_bytes key))) _ w4 h4
                  (λ w5 t5 e5 h5.
                    went_past_panic (call (files.write u (prover.witness_bytes witness))) _ w5 h5
                      (λ w6 t6 e6 h6.
                        let (at_f, empty_f) =
                          laws.create_path names.proof w (returned-injective e1) in
                        let (at_k, empty_k) =
                          laws.create_path names.key w1 (returned-injective e2) in
                        let (at_u, empty_u) =
                          laws.create_path names.witness w2 (returned-injective e3) in
                        (
                          closed f k u w6 names.proof h6
                              ∙ keeps u (prover.witness_bytes witness) names.proof w5 at_u e6
                                  (λ e. d.witness_proof (sym e))
                              ∙ keeps k (prover.key_bytes key) names.proof w4 at_k e5
                                  (λ e. d.key_proof (sym e))
                              ∙ writes f (prover.proof_bytes proof) w3 at_f e4 (
                                  laws.create_other names.witness names.proof w2
                                    (returned-injective e3) (λ e. d.witness_proof (sym e))
                                  ∙ laws.create_other names.key names.proof w1
                                      (returned-injective e2) (λ e. d.key_proof (sym e))
                                  ∙ empty_f),
                          closed f k u w6 names.key h6
                              ∙ keeps u (prover.witness_bytes witness) names.key w5 at_u e6
                                  (λ e. d.witness_key (sym e))
                              ∙ writes k (prover.key_bytes key) w4 at_k e5 (
                                  keeps f (prover.proof_bytes proof) names.key w3 at_f e4
                                    d.key_proof
                                  ∙ laws.create_other names.witness names.key w2
                                      (returned-injective e3) (λ e. d.witness_key (sym e))
                                  ∙ empty_k),
                          closed f k u w6 names.witness h6
                              ∙ writes u (prover.witness_bytes witness) w5 at_u e6 (
                                  keeps k (prover.key_bytes key) names.witness w4 at_k e5
                                    d.witness_key
                                  ∙ keeps f (prover.proof_bytes proof) names.witness w3 at_f e4
                                      d.witness_proof
                                  ∙ empty_u),
                        )))))))

  -- Documented of gnark: a reader gets back what `WriteTo` has written.
  pub record ReadsBack (curve : Curve) : Type 0 where
    pub proof : (p : g.Proof) → g.read_proof (g.new_proof curve) (prover.proof_bytes p) ≡ ok p
    pub key :
        (k : g.VerifyingKey)
        → g.read_verifying_key (g.new_verifying_key curve) (prover.key_bytes k) ≡ ok k
    pub empty : g.Witness
    pub new_witness : g.new_witness curve ≡ ok empty
    pub witness : (u : g.Witness) → g.read_witness empty (prover.witness_bytes u) ≡ ok u

  nil_or-ok : (e : Option Error) {t : Unit {0}} → nil_or e ≡ ok t → e ≡ none
  nil_or-ok none h = refl
  nil_or-ok (some x) h = absurd cc

  verified-accepted :
      (curve : Curve) (proof : g.Proof) (key : g.VerifyingKey) (public : g.Witness)
      → ReadsBack curve
      → g.verify proof key public ≡ none
      → verify_with g curve
          (prover.proof_bytes proof)
          (prover.witness_bytes public)
          (prover.key_bytes key)
        ≡ true
  unfolding verify_with
  verified-accepted curve proof key public back h =
      ground (arith, back.proof proof, back.key key, back.new_witness, back.witness public)

  -- The files at these names hold a proof, a public witness and a key that an operator accepts.
  pub record Accepts (curve : Curve) (names : Names) (w : W) : Type 0 where
    pub proof : List ℕ
    pub witness : List ℕ
    pub key : List ℕ
    pub proof_file : content w names.proof ≡ some proof
    pub witness_file : content w names.witness ≡ some witness
    pub key_file : content w names.key ≡ some key
    pub accepted : verify_with g curve proof witness key ≡ true

  -- Where files hold what is written to them, and gnark reads back what it has written: if a program
  -- that makes a sample into three different files comes to its end, an operator that
  -- gets the contents of these files accepts the proof on that curve.
  pub make_sample-Accepts :
      (T : Type 0 → Type 0) (curve : Curve) (define : Define T)
      (set_up : prover.Ccs → Script W (prover.ProvingKey × g.VerifyingKey)) (assignment : T ℤ)
      (names : Names) (w : W) {w' : W}
      → Differ names
      → ReadsBack curve
      → make_sample files g prover T curve define set_up assignment names w ≡ returned (w', ok tt)
      → Accepts curve names w'
  unfolding make_sample
  make_sample-Accepts T curve define set_up assignment names w d back h =
      went_past_panic (give (prover.compile T curve define)) _ w h (λ w1 ccs e1 h1.
        went (set_up ccs) _ w1 h1 (λ w2 keys e2 h2.
          went_past_fatal (give (prover.new_witness T assignment curve false)) _ w2 h2
            (λ w3 full e3 h3.
              went_past_fatal (give (prover.new_witness T assignment curve true)) _ w3 h3
                (λ w4 public e4 h4.
                  went_past_panic (call (prover.prove ccs keys.0 full)) _ w4 h4 (λ w5 proof e5 h5.
                    went_past_panic (give (nil_or (g.verify proof keys.1 public))) _ w5 h5
                      (λ w6 t e6 h6.
                        let (p, k, u) = write_files-Holds names proof keys.1 public w6 d h6 in
                        record {
                          proof = prover.proof_bytes proof;
                          witness = prover.witness_bytes public;
                          key = prover.key_bytes keys.1;
                          proof_file = p;
                          witness_file = u;
                          key_file = k;
                          accepted =
                              verified-accepted curve proof keys.1 public back
                                (nil_or-ok (g.verify proof keys.1 public) (given e6).0);
                        }))))))
