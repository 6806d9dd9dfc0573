-- ===== src/Operator/Rpc/Delivery.antt =====
-- When an operator's response counts as delivered.
use beluuga.Prelude.{ℕ, ◌≡◌, ◌<◌, some, none}
use beluuga.Errors.{ok}
use beluuga.Types.{SignedTaskResponse}
use beluuga.Retry.{world_after, FailsFor, retry_succeeds, retry_gives_up}
use beluuga.Operator.Rpc.{
  Rpc, AggregatorRpcClient, call_aggregator, recover, send_signed_task_response_to_aggregator,
}

module _ (rpc : Rpc) (response : SignedTaskResponse rpc.Signature)
    (c : AggregatorRpcClient rpc.World rpc.Client) where
  -- If call `k` is the first that ends without an error, and `k` is below 10, the client stops there
  -- with that reply, whatever number it is.
  pub any_reply_ends :
      (k reply : ℕ)
      → k < 10
      → FailsFor (call_aggregator rpc response) (recover rpc) k c
      → (call_aggregator rpc response
          (world_after (call_aggregator rpc response) (recover rpc) k c)).1
        ≡ ok reply
      → send_signed_task_response_to_aggregator rpc response c ≡ (
        (call_aggregator rpc response
            (world_after (call_aggregator rpc response) (recover rpc) k c)).0,
        some reply,
      )
  unfolding send_signed_task_response_to_aggregator
  any_reply_ends k reply lt f s =
      retry_succeeds (call_aggregator rpc response) (recover rpc) 10 k c reply lt f s

  -- The client gives up after 10 calls that end with an error.
  pub ten_errors_end :
      FailsFor (call_aggregator rpc response) (recover rpc) 10 c
      → send_signed_task_response_to_aggregator rpc response c
        ≡ (world_after (call_aggregator rpc response) (recover rpc) 10 c, none)
  unfolding send_signed_task_response_to_aggregator
  ten_errors_end f = retry_gives_up (call_aggregator rpc response) (recover rpc) 10 c f
