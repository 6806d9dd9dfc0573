-- ===== src/Operator/Rpc/Handled.antt =====
-- The operator's client with the aggregator's handler at the other end of net/rpc.
use beluuga.Prelude.{
  ℕ, String, ◌≡◌, ◌<◌, Bool, true, false, none, some, if◌then◌else◌, refl, ◌∙◌, arith,
}
use beluuga.Prelude.Keys.{bytes_eq}
use beluuga.Errors.{Result, ok, err, shutdown}
use beluuga.Types.{SignedTaskResponse}
use beluuga.Go.Map
use beluuga.Go.Outcome.{Outcome, returned, panicked, exited, blocked}
use beluuga.Aggregator.State.{BlsAggregationService, Aggregator}
use beluuga.Aggregator.Server.{Reply, process_operator_signed_task_response}
use beluuga.Aggregator.Server.Waiting.{Runs, AbsentBefore, process_finds, process_never}
use beluuga.Operator.Rpc.{
  Rpc, AggregatorRpcClient, call_aggregator, send_signed_task_response_to_aggregator,
}

map_if :
    {A B : Type 0} (f : A → B) (b : Bool) (x y : A)
    → f (if b then x else y) ≡ (if b then f x else f y)
map_if f true x y = refl
map_if f false x y = refl

module _ (bls : BlsAggregationService)
    (others : ℕ → Aggregator bls.Service → Outcome (Aggregator bls.Service)) (in_time : Bool) where
  open bls use {Service, Signature, process_new_signature}

  -- net/rpc hands the caller what the handler leaves in `*reply`; where the process of the aggregator
  -- ends in between, the connection is shut down. A handler that waits for a held mutex would not answer
  -- at all; it stands here with the shutdown, and from a free mutex it does not occur.
  abbrev handed_back :
      Aggregator Service
      → Outcome (Aggregator Service × Reply Signature)
      → Aggregator Service × Result ℕ
  handed_back before (returned (agg, reply)) = (agg, ok reply.reply)
  handed_back before panicked = (before, err shutdown)
  handed_back before exited = (before, err shutdown)
  handed_back before blocked = (before, err shutdown)

  -- A connection to this aggregator; nothing else goes over it.
  abbrev pub served_by : Rpc
  served_by = record {
    World = Aggregator Service;
    Client = Unit {0};
    Signature = Signature;
    call = λ client response agg.
        handed_back agg (process_operator_signed_task_response bls others in_time response agg);
    dial_http = λ address agg. (agg, ok tt);
    sleep = λ seconds agg. agg;
  }

  abbrev pub connected :
      String → Aggregator Service → AggregatorRpcClient (Aggregator Service) (Unit {0})
  connected address agg = record { rpc_client = tt; aggregator_ip_port_addr = address; world = agg }

  -- A call that the handler answers is the only one.
  one_call :
      (response : SignedTaskResponse Signature) (address : String) (agg : Aggregator Service)
      (answer : Aggregator Service × Reply Signature)
      → process_operator_signed_task_response bls others in_time response agg ≡ returned answer
      → send_signed_task_response_to_aggregator served_by response (connected address agg)
        ≡ (connected address answer.0, some answer.1.reply)
  unfolding send_signed_task_response_to_aggregator call_aggregator
  one_call response address agg answer h = ground (arith, h)

  module _ (woken : ℕ → Aggregator Service) (response : SignedTaskResponse Signature)
      (address : String) (runs : Runs others woken) where
    -- Let the mutex be free at each round of the handler, and the other goroutines return from each
    -- sleep. If the response's root gets an index in a round below 50, the operator's client ends after
    -- one call: the BLS service has got the signature at that index and the reply is 0 if it was done
    -- in time; otherwise the reply is 1 and the client does not try again.
    pub client_delivers :
        (t index : ℕ)
        → t < 50
        → AbsentBefore woken response.batch_merkle_root t
        → Map.get (woken t).batches_idx_by_root response.batch_merkle_root ≡ some index
        → send_signed_task_response_to_aggregator served_by response (connected address (woken 0))
          ≡ (if in_time
              then (
                connected address (record (woken t) {
                  bls_aggregation_service =
                      (process_new_signature index response.batch_merkle_root response.bls_signature
                        response.operator_id
                        (woken t).bls_aggregation_service).0;
                }),
                some 0,
              )
              else (connected address (woken t), some 1))
    client_delivers t index lt absent found =
        one_call response address (woken 0) _
          (process_finds bls others woken response t index in_time lt runs absent found)
        ∙ map_if
            (λ (p : Aggregator Service × Reply Signature). (connected address p.0, some p.1.reply))
            in_time _ _

    -- Let the mutex be free at each round of the handler, and the other goroutines return from each
    -- sleep. If the response's root gets no index in any of the 50 rounds, the operator's client ends
    -- after one call all the same, with reply 1: the signature is lost, and the aggregator is left as
    -- the other goroutines left it.
    pub client_loses :
        AbsentBefore woken response.batch_merkle_root 50
        → send_signed_task_response_to_aggregator served_by response (connected address (woken 0))
          ≡ (connected address (woken 50), some 1)
    client_loses absent =
        one_call response address (woken 0) (woken 50, record { reply = 1; running = none })
          (process_never bls others woken response in_time runs absent)
