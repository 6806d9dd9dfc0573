-- ===== src/Operator/Rpc.antt =====
-- operator/pkg/rpc_client.go: the operator's calls of the aggregator.
pub mod Delivery
pub mod Handled
use beluuga.Prelude.{ℕ, String, Option}
use beluuga.Errors.{Error, Result, ok, err, shutdown}
use beluuga.Types.{SignedTaskResponse}
use beluuga.Retry.{retry}

abbrev pub max_retries : ℕ
max_retries = 10

abbrev pub retry_interval : ℕ
retry_interval = 10

-- net/rpc: a call of `Aggregator.ProcessOperatorSignedTaskResponse`, which gives the reply, and dialing.
pub record Rpc : Type 1 where
  pub World : Type 0
  pub Client : Type 0
  pub Signature : Type 0
  pub call : Client → SignedTaskResponse Signature → World → World × Result ℕ
  pub dial_http : String → World → World × Result Client
  pub sleep : ℕ → World → World

-- `AggregatorRpcClient`, with the world that it talks to.
pub record AggregatorRpcClient (W C : Type 0) : Type 0 where
  pub rpc_client : C
  pub aggregator_ip_port_addr : String
  pub world : W

module _ (rpc : Rpc) where
  open rpc use {World, Client, Signature, call, dial_http, sleep}

  -- `NewAggregatorRpcClient`
  unfoldable pub new_aggregator_rpc_client :
      String → World → World × Result (AggregatorRpcClient World Client)
  new_aggregator_rpc_client addr w =
      let (w', r) = dial_http addr w in
      (
        w',
        elim r [
          | ok client ↦
              ok (record { rpc_client = client; aggregator_ip_port_addr = addr; world = w' })
          | err e ↦ err e
        ],
      )

  unfoldable pub call_aggregator :
      SignedTaskResponse Signature
      → AggregatorRpcClient World Client
      → AggregatorRpcClient World Client × Result ℕ
  call_aggregator response c =
      let (w, r) = call c.rpc_client response c.world in (record c { world = w }, r)

  -- What follows an error: on a shut down connection the client dials again, and sleeps only if that
  -- fails; on any other error it sleeps.
  unfoldable pub recover :
      Error → AggregatorRpcClient World Client → AggregatorRpcClient World Client
  recover shutdown c = elim (dial_http c.aggregator_ip_port_addr c.world).1 [
    | ok client ↦ record c {
      rpc_client = client;
      world = (dial_http c.aggregator_ip_port_addr c.world).0;
    }
    | err e ↦ record c {
      world = sleep retry_interval (dial_http c.aggregator_ip_port_addr c.world).0;
    }
  ]
  recover _ c = record c { world = sleep retry_interval c.world }

  -- The reply, if there was one; it is only logged.
  unfoldable pub send_signed_task_response_to_aggregator :
      SignedTaskResponse Signature
      → AggregatorRpcClient World Client
      → AggregatorRpcClient World Client × Option ℕ
  unfolding retry call_aggregator recover
  send_signed_task_response_to_aggregator response c =
      retry (call_aggregator response) recover max_retries c
