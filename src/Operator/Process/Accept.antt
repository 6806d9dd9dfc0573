-- ===== src/Operator/Process/Accept.antt =====
-- When a batch is accepted, and the order of the goroutines.
use mathlib.Core.Bool.{Bool-set}
use mathlib.Core.Logic.{∥∥₁_elim}
use mathlib.Core.List.{Perm, Permᴰ}
use mathlib.Core.Path.{ap₂}
use beluuga.Prelude.{
  ◌≡◌, ◌↔◌, ◌&&◌, ◌∙◌, Bool, true, false, none, some, refl, sym, inl, inr, ap, and-eq-true,
  if◌then◌else◌, ◌+◌, length, List, [], ◌∷◌, arith,
}
use beluuga.Prelude.Int.{ℤ}
use beluuga.Errors.{Result-cases, ok-injective, ok, invalid_proof}
use beluuga.Go.Outcome.{returned, ◌>>=◌, >>=-eq-returned, returned-injective}
use beluuga.Types.{Bytes32}
use beluuga.Operator.Data.{VerificationData}
use beluuga.Operator.Download.{Http, get_batch_from_s3}
use beluuga.Operator.Verify.{Verifiers, verify}
use beluuga.Operator.Process.{
  NewBatchLog, OperatorState, receive, verify_all, process_new_batch_log,
}

all_true : List Bool → Bool
all_true [] = true
all_true (b ∷ bs) = b && all_true bs

-- Each proof of the batch verifies.
abbrev pub AllVerify : Verifiers → List VerificationData → Type 0
AllVerify libs [] = Unit
AllVerify libs (v ∷ vs) = (verify libs v ≡ returned true) × AllVerify libs vs

and_swap : (a b c : Bool) → (a && (b && c)) ≡ (b && (a && c))
and_swap a b c = ground arith

all_true-permᴰ : {xs ys : List Bool} → Permᴰ xs ys → all_true xs ≡ all_true ys
unfolding all_true
all_true-permᴰ Permᴰ.nil = refl
all_true-permᴰ (Permᴰ.cons e d) = ap₂ ◌&&◌ e (all_true-permᴰ d)
all_true-permᴰ (Permᴰ.swap {a} {b} {l = l} e f) =
    and_swap a b (all_true l) ∙ ap₂ (λ x y. x && (y && all_true l)) f e
all_true-permᴰ (Permᴰ.trans d d') = all_true-permᴰ d ∙ all_true-permᴰ d'

all_true-perm : (xs ys : List Bool) → Perm xs ys → all_true xs ≡ all_true ys
all_true-perm xs ys p = ∥∥₁_elim p (Bool-set (all_true xs) (all_true ys)) all_true-permᴰ

receive-all_true :
    (bs : List Bool) → receive bs ≡ (if all_true bs then none else some invalid_proof)
unfolding receive all_true
receive-all_true [] = refl
receive-all_true (true ∷ bs) = receive-all_true bs
receive-all_true (false ∷ bs) = refl

-- The channel hands over each answer once, in some order.
abbrev pub Reorders : (List Bool → List Bool) → Type 0
Reorders order = (bs : List Bool) → Perm (order bs) bs

receive-order :
    (order : List Bool → List Bool) (bs : List Bool)
    → Reorders order
    → receive (order bs) ≡ (if all_true bs then none else some invalid_proof)
receive-order order bs p =
    ground (arith, receive-all_true (order bs), all_true-perm (order bs) bs (p bs))

module _ (libs : Verifiers) where
  answers-AllVerify :
      (batch : List VerificationData) {bs : List Bool}
      → verify_all libs batch ≡ returned bs
      → (all_true bs ≡ true) ↔ AllVerify libs batch
  unfolding verify_all all_true
  answers-AllVerify [] h = ground arith
  answers-AllVerify (v ∷ vs) h =
      let (r, e, h') =
        >>=-eq-returned (verify libs v) (λ r. verify_all libs vs >>= λ rs. returned (r ∷ rs)) h in
      let (rs, e', h'') = >>=-eq-returned (verify_all libs vs) (λ rs. returned (r ∷ rs)) h' in
      let ih = answers-AllVerify vs e' in
      let same = returned-injective h'' in
      rw (← same) (
        λ t. let (a, b) = and-eq-true r (all_true rs) t in (e ∙ ap returned a, ih.0 b),
        λ k. ground (arith, e, k.0, ih.1 k.1),
      )

  AllVerify-answers :
      (batch : List VerificationData)
      → AllVerify libs batch
      → (bs : List Bool) × (verify_all libs batch ≡ returned bs)
  unfolding verify_all
  AllVerify-answers [] h = ([], refl)
  AllVerify-answers (v ∷ vs) h =
      let (bs, e) = AllVerify-answers vs h.1 in (true ∷ bs, ground (arith, h.0, e))

  module _ (http : Http) (max_batch_size : ℤ) where
    -- Whatever order the answers of the goroutines come in, the batch has the same result.
    pub order_irrelevant :
        (order order' : List Bool → List Bool) (log : NewBatchLog) (s : OperatorState http.World)
        → Reorders order
        → Reorders order'
        → process_new_batch_log libs http max_batch_size order log s
          ≡ process_new_batch_log libs http max_batch_size order' log s
    unfolding process_new_batch_log
    order_irrelevant order order' log s p p' = grind (arith, receive-order)

    -- What an accepted batch has been through.
    pub accepted :
        (order : List Bool → List Bool) (log : NewBatchLog) (s : OperatorState http.World)
        {s' : OperatorState http.World}
        → Reorders order
        → process_new_batch_log libs http max_batch_size order log s ≡ returned (s', none)
        → (batch : List VerificationData) × ((get_batch_from_s3 http max_batch_size
              log.batch_data_pointer s.world).1
            ≡ ok batch)
          × AllVerify libs batch
    unfolding process_new_batch_log
    accepted order log s p h =
        elim (Result-cases
          (get_batch_from_s3 http max_batch_size log.batch_data_pointer s.world).1) [
            | inl (batch, got) ↦
                let (bs, e, h') =
                  >>=-eq-returned (verify_all libs batch)
                    (λ bs. returned (
                      record {
                        world =
                            (get_batch_from_s3 http max_batch_size log.batch_data_pointer
                              s.world).0;
                        operator_task_responses = s.operator_task_responses + length batch;
                      },
                      receive (order bs),
                    ))
                    (rw got at h) in
                let all : all_true bs ≡ true = ground (arith, h', receive-order order bs p) in
                (batch, got, (answers-AllVerify batch e).0 all)
            | inr (x, bad) ↦ absurd (ground (arith, bad))
          ]

    -- Of a batch that could be downloaded, `ProcessNewBatchLog` returns without error exactly when each
    -- of its proofs verifies; and whatever Merkle root the log has, the result is the same.
    pub accepts_iff_AllVerify :
        (order : List Bool → List Bool) (log : NewBatchLog) (s : OperatorState http.World)
        (batch : List VerificationData) (w : http.World)
        → Reorders order
        → get_batch_from_s3 http max_batch_size log.batch_data_pointer s.world ≡ (w, ok batch)
        → ((process_new_batch_log libs http max_batch_size order log s
              ≡ returned (
                record {
                  world = w;
                  operator_task_responses = s.operator_task_responses + length batch;
                },
                none,
              ))
            ↔ AllVerify libs batch)
          × ((root : Bytes32)
              → process_new_batch_log libs http max_batch_size order
                  (record log { batch_merkle_root = root })
                  s
                ≡ process_new_batch_log libs http max_batch_size order log s)
    unfolding process_new_batch_log
    accepts_iff_AllVerify order log s batch w p got = (
      (
        λ h.
            let (found, ok_found, all) = accepted order log s p h in
            let same : found ≡ batch = ok-injective (sym ok_found ∙ ap (λ r. r.1) got) in
            rw (← same) all,
        λ k.
            let (bs, e) = AllVerify-answers batch k in
            ground (arith, got, e, receive-order order bs p, (answers-AllVerify batch e).1 k),
      ),
      λ root. refl,
    )
