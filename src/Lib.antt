-- ===== src/Lib.antt =====
-- Aligned: verification of proofs by operators, whose signatures an aggregator collects and answers on
-- chain. This library models the Go programs of the repository and the properties that make them correct.
--
-- A batch of proofs lies in a storage bucket; the contract announces it by the event NewBatch. The
-- aggregator (aggregator/internal/pkg) gives each new Merkle root an index and opens a task of the BLS
-- aggregation service for it. Each operator (operator/pkg) downloads the batch, verifies each proof, and
-- sends its signature of the root to the aggregator over net/rpc; the aggregator hands it to the service,
-- and sends what the service aggregates to the contract (core/chainio). The task sender (task_sender)
-- uploads single proofs as batches, and the batcher (batcher/aligned-batcher/gnark) verifies before it
-- batches.
--
-- Files, and the code that they model:
--   Prelude, Go, Errors, Types: lists, words, slices with capacity, maps, the outcomes of a Go call
--     (it returns, panics, exits, or waits for a held mutex) and the error values of the program;
--     Go/Call is a call on a world, and Go/Script one that may end the process.
--     core/types/signed_task_response.go.
--   Retry: the loop "try, pause, try again" of three components.
--   ProvingSystem: common/proving_systems.go.
--   Chain/Points, Chain/Receipt: core/utils. Chain/Writer: SendTask and SendAggregatedResponse of
--     core/chainio/avs_writer.go. Chain/Connect: the constructors of core/chainio. Chain/Client is what
--     they call of go-ethereum and of the generated bindings. Chain/Watch: the subscription to NewBatch
--     of contracts/bindings/AlignedLayerServiceManager/binding.go, whose goroutine moves from one select
--     to the next. Cli is what the programs use of urfave/cli.
--   Aggregator/State: the maps, the index, the mutex and AddNewTask of aggregator/internal/pkg/aggregator.go;
--     Aggregator/Registry is the abstract list of roots, and Aggregator/AddTask the refinement, with
--     the laws of the BLS service that a new task relies on in Aggregator/AddTask/Returns.
--     Aggregator/Server: aggregator/internal/pkg/server.go. Aggregator/Respond:
--     handleBlsAggServiceResponse and sendAggregatedResponse. Aggregator/Subscribe:
--     aggregator/internal/pkg/subscriber.go.
--   Aggregator/Threads: the goroutines of a running aggregator, interleaved: goroutine 0 is the subscriber,
--     every other one a call of an operator or an answer on chain. A goroutine is a place with its local
--     variables (Thread), Move is one of its steps from one access to shared state to the next, Step lets
--     any goroutine move, and Reach is what can be reached from a new aggregator. Invariant states what holds
--     there, Moves and Reached prove it; Vacancy is about the service's tasks, and Proceeds, Nearer
--     and Ends about the way of a goroutine to its end. Undisturbed and Calls compare a lone goroutine
--     with Aggregator/Respond and Aggregator/Server. In Heard the batches come from the subscriptions
--     of Chain/Watch.
--   Aggregator/Setup, Aggregator/Start, Aggregator/Commands: NewAggregator, Start and ServeOperators, and
--     aggregator/cmd/main.go. Metrics: metrics/metrics.go.
--   Operator/Verify, Operator/Gnark, Operator/Halo2: verify of operator/pkg/operator.go with the wrappers
--     operator/sp1, operator/halo2ipa and operator/halo2kzg. Operator/Download: operator/pkg/s3.go.
--     Operator/Setup: NewOperatorFromConfig and operator/pkg/register.go. Operator/Process:
--     ProcessNewBatchLog. Operator/Run: Start, in Heard over the subscriptions of Chain/Watch.
--     Operator/Rpc: operator/pkg/rpc_client.go, with Aggregator/Server at the other end in
--     Operator/Rpc/Handled.
--     Operator/Commands: operator/cmd/actions, and in Table the flags and operator/cmd/main.go.
--     Operator/Foreign: operator/merkle_tree and operator/risc_zero.
--   Config: core/config. Batcher: batcher/aligned-batcher/gnark/verifier.go.
--   TaskSender: task_sender/cmd/main.go and task_sender/pkg/task_sender.go.
--     TaskSender/Commands has the flags and main.
--   Network: the contract's events, the operators of Operator/Run and the aggregator of Aggregator/Threads
--     together. An honest operator is any run of Start on batches that were announced. Honest holds what
--     such a run sends, Backing what stands behind each goroutine of the aggregator, Moves and Verified
--     that it is kept; Runs and Answered put runs together that answer a batch.
--   Samples: task_sender/test_examples, the circuits and the programs that make sample proofs;
--     Samples/Infinite composes a round of the infinite task sender with its generator and an operator,
--     and Loop in it the rounds.
--   Examples: the theorems at concrete inputs.
--
-- How the code is read. Logging is left out. A library that the code calls (net/http, net/rpc, go-ethereum,
-- the EigenLayer SDK, gnark, the foreign verifiers, AWS) is a record of functions that the definitions take
-- as an argument; calls with effects act on a world of their own. A mutex is a field of the state. In the
-- sequential definitions, what the other goroutines do while one sleeps is an argument: in Aggregator/Server
-- a function for each sleep, in Operator/Process the order of the answers on the channel, in
-- Aggregator/Subscribe, Aggregator/Start and Operator/Run the events that arrive; Aggregator/Threads has the
-- interleaving itself. There the environment may let a batch arrive, an operator call, or the BLS service
-- answer for a task that it was given; the calls of the service and the writer are single steps, and a call
-- that ends the process has no step. An unrecovered panic ends the process at once.
--
-- Bounds. Every retry loop has the number of rounds of the code (5, 10, 25, 50 and 100). The loops of the
-- operator and of the task sender have no end: the operator's runs over a list of events, the task
-- sender's for a number of rounds, both of any length; rounds are counted by numbers that do not wrap.
-- Offsets into Halo2 keys and the gas limit wrap as in the code.
--
-- In Network the keys are an argument: which signatures are valid under the key of an operator, who is
-- honest, and what a quorum is. There only the owner of a key makes signatures that are valid under it, and
-- the BLS service answers a task without an error only when it has got valid signatures of a quorum for it.
--
-- Not modelled: the generated bindings but for NewBatch (wrappers of go-ethereum, most of them not called),
-- the contracts, the batcher itself (Rust), the texts of the help, and what the foreign functions behind the
-- wrappers compute. The order of the wallet's transactions on chain is the node's. The operator's program
-- computes no Merkle root of a batch, so the model has none.
pub mod Prelude
pub mod Go
pub mod Errors
pub mod Types
pub mod ProvingSystem
pub mod Retry
pub mod Metrics
pub mod Cli
pub mod Chain
pub mod Aggregator
pub mod Operator
pub mod Config
pub mod Batcher
pub mod TaskSender
pub mod Network
pub mod Samples
pub mod Examples
