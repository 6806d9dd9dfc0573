-- ===== src/Metrics.antt =====
-- metrics/metrics.go, over the library for Prometheus.
use beluuga.Prelude.{String, Option, none, some, ◌≡◌, arith}
use beluuga.Errors.{Error, prometheus_failed}
use beluuga.Go.Outcome.{Outcome, returned, ◌>>=◌}

-- `promauto.With(reg).NewCounter` panics where the registry refuses the counter.
pub record Prometheus : Type 1 where
  pub Registry : Type 0
  pub Counter : Type 0
  pub new_registry : Registry
  -- namespace and name
  pub new_counter : String → String → Registry → Outcome (Registry × Counter)
  pub inc : Counter → Counter
  -- `http.ListenAndServe` on an address, with the registry behind `/metrics`
  pub listen_and_serve : String → Registry → Option Error

abbrev pub aligned_namespace : String
aligned_namespace = "aligned"

pub record Metrics (Counter : Type 0) : Type 0 where
  pub ip_port_address : String
  pub num_aggregated_responses : Counter
  pub num_operator_task_responses : Counter

module _ (prom : Prometheus) where
  open prom use {Registry, Counter, new_counter, inc, listen_and_serve}

  unfoldable pub new_metrics : String → Registry → Outcome (Registry × Metrics Counter)
  new_metrics address reg = do
    (reg', aggregated) ← new_counter aligned_namespace "aggregated_responses" reg
    (reg'', answered) ← new_counter aligned_namespace "operator_responses" reg'
    returned (
      reg'',
      record {
        ip_port_address = address;
        num_aggregated_responses = aggregated;
        num_operator_task_responses = answered;
      },
    )

  abbrev wrapped : Option Error → Option Error
  wrapped none = none
  wrapped (some e) = some (prometheus_failed e)

  -- `Start`: the one message on the channel that it returns, once the server has ended.
  unfoldable pub start : Metrics Counter → Registry → Option Error
  start m reg = wrapped (listen_and_serve m.ip_port_address reg)

  unfoldable pub inc_aggregated_responses : Metrics Counter → Metrics Counter
  inc_aggregated_responses m = record m {
    num_aggregated_responses = inc m.num_aggregated_responses;
  }

  unfoldable pub inc_operator_task_responses : Metrics Counter → Metrics Counter
  inc_operator_task_responses m = record m {
    num_operator_task_responses = inc m.num_operator_task_responses;
  }

  pub new_metrics-ip_port_address :
      (address : String) (reg : Registry) {made : Registry × Metrics Counter}
      → new_metrics address reg ≡ returned made
      → made.1.ip_port_address ≡ address
  unfolding new_metrics
  new_metrics-ip_port_address address reg h = ground arith
