-- ===== src/Examples/Batches.antt =====
-- An operator behind a small world: the calls of net/http count up, and answer with one SP1 proof.
use mathlib.Core.List.{reverse, reverse_perm}
use mathlib.Core.List.Perm.{refl as perm_refl}
use beluuga.Prelude.{
  ℕ, suc, ◌≡◌, ◌↔◌, ◌==◌, Bool, true, false, none, some, List, [], ◌∷◌, refl, arith,
}
use beluuga.Prelude.Keys.{nat_eq}
use beluuga.Prelude.Int.{pos, ◌≤ℤ◌}
use beluuga.Errors.{ok, shutdown}
use beluuga.Types.{Bytes32}
use beluuga.Go.Outcome.{returned, panicked}
use beluuga.Go.Slice.{of_list}
use beluuga.Operator.Data.{VerificationData}
use beluuga.Operator.Gnark.{Backend}
use beluuga.Operator.Verify.{Verifiers, verify, verify_sp1_proof}
use beluuga.Operator.Verify.Dispatch.{Crashes, verify_panics}
use beluuga.Operator.Download.{HeadResponse, Http, get_batch_from_s3, fetch}
use beluuga.Operator.Download.Gate.{download_checks}
use beluuga.Operator.Process.{NewBatchLog, OperatorState, process_new_batch_log}
use beluuga.Operator.Process.Accept.{AllVerify, Reorders, accepts_iff_AllVerify, order_irrelevant}
use beluuga.Operator.Run.{Event, new_batch, subscription_failed, Subscriptions, Loop, pass}
use beluuga.Operator.Run.Signed.{verified_batch_is_sent}

abbrev pub backend : Backend
backend = record {
  Proof = List ℕ;
  Witness = List ℕ;
  VerifyingKey = List ℕ;
  new_proof = λ c. [];
  read_proof = λ p b. ok b;
  new_witness = λ c. ok [];
  read_witness = λ p b. ok b;
  new_verifying_key = λ c. [];
  read_verifying_key = λ p b. ok b;
  verify = λ p k i. none;
}

abbrev pub libs : Verifiers
libs = record {
  plonk = backend;
  groth16 = backend;
  verify_sp1_proof_ffi = λ args. args.proof_len == 2;
  verify_halo2_ipa_proof_ffi = λ args. true;
  verify_halo2_kzg_proof_ffi = λ args. false;
}

abbrev pub sp1_data : VerificationData
sp1_data = record {
  proving_system_id = 3;
  proof = of_list (7 ∷ 9 ∷ []);
  pub_input = of_list [];
  verification_key = of_list [];
  vm_program_code = of_list (1 ∷ []);
}

-- The same without a program.
abbrev empty_program : VerificationData
empty_program = record sp1_data { vm_program_code = of_list [] }

abbrev pub http : Http
http = record {
  World = ℕ;
  Body = Unit {0};
  head = λ url w. (suc w, ok (record { status_code = 200; content_length = pos 5 }));
  get = λ url w. (suc w, ok tt);
  read_all = λ b w. (suc w, ok (1 ∷ []));
  close = λ b w. suc w;
  unmarshal = λ b. ok (sp1_data ∷ []);
}

abbrev log : NewBatchLog
log = record { batch_merkle_root = 4 ∷ []; batch_data_pointer = "https://batches" }

abbrev pub idle : OperatorState ℕ
idle = record { world = 0; operator_task_responses = 0 }

abbrev same_order : List Bool → List Bool
same_order bs = bs

pub reverse-Reorders : Reorders reverse
reverse-Reorders bs = reverse_perm bs

same-Reorders : Reorders same_order
same-Reorders bs = perm_refl bs

abbrev pub subs : Subscriptions
subs = record { Chain = ℕ; Sub = ℕ; watch_new_batch = λ c. (suc c, ok c); unsubscribe = λ s c. c }

abbrev pub sign : Bytes32 → List ℕ
sign root = root

abbrev subscribed : Loop ℕ ℕ ℕ (List ℕ)
subscribed = record { state = idle; chain = 1; sub = some 0; sent = [] }

abbrev pub events : List Event
events = subscription_failed shutdown ∷ new_batch log ∷ []

verified_batch_is_sent_example :
    pass subs libs http (pos 10) reverse sign (1 ∷ []) (some 0) (new_batch log) subscribed
    ≡ returned (record {
      state = record { world = 4; operator_task_responses = 1 };
      chain = 1;
      sub = some 0;
      sent =
          record { batch_merkle_root = 4 ∷ []; bls_signature = 4 ∷ []; operator_id = 1 ∷ [] } ∷ [];
    })
unfolding verify get_batch_from_s3 verify_sp1_proof
verified_batch_is_sent_example =
    verified_batch_is_sent libs http (pos 10) reverse sign (1 ∷ []) subs 0 log subscribed
      (sp1_data ∷ []) 4 reverse-Reorders refl (refl, tt)

accepts_iff_AllVerify_example :
    ((process_new_batch_log libs http (pos 10) reverse log idle
        ≡ returned (record { world = 4; operator_task_responses = 1 }, none))
      ↔ AllVerify libs (sp1_data ∷ []))
    × ((root : Bytes32)
        → process_new_batch_log libs http
            (pos 10)
            reverse
            (record log { batch_merkle_root = root })
            idle
          ≡ process_new_batch_log libs http (pos 10) reverse log idle)
unfolding get_batch_from_s3
accepts_iff_AllVerify_example =
    accepts_iff_AllVerify libs http (pos 10) reverse log idle (sp1_data ∷ []) 4 reverse-Reorders
      refl

order_irrelevant_example :
    process_new_batch_log libs http (pos 10) reverse log idle
    ≡ process_new_batch_log libs http (pos 10) same_order log idle
order_irrelevant_example =
    order_irrelevant libs http (pos 10) reverse same_order log idle reverse-Reorders same-Reorders

verify_panics_example : (verify libs empty_program ≡ panicked) ↔ Crashes empty_program
verify_panics_example =
    verify_panics libs empty_program (record { len-le-cap = omega arith }) tt (omega arith)

download_checks_example :
    (resp : HeadResponse) × (ok (record { status_code = 200; content_length = pos 5 }) ≡ ok resp)
    × (resp.status_code ≡ 200)
    × (resp.content_length ≤ℤ pos 10)
    × (fetch http "https://batches" 1 ≡ (4, ok (sp1_data ∷ [])))
unfolding get_batch_from_s3
download_checks_example = download_checks http (pos 10) "https://batches" 0 refl
