-- ===== src/Chain/Watch.antt =====
-- contracts/bindings/AlignedLayerServiceManager/binding.go: the subscription to the event NewBatch. Its
-- goroutine takes raw logs from go-ethereum, unpacks each, and offers it on the channel of the program.
-- It moves from one `select` to the next; logs arrive at any time.
pub mod Delivered
pub mod Received
use beluuga.Prelude.{ℕ, String, Option, none, some, List, [], ◌∷◌, ◌++◌, ◌≡◌}
use beluuga.Errors.{Error, Result, ok, err, ◌>>=◌}
use beluuga.Types.{Bytes32}
use beluuga.Go.Call.{Call}
use beluuga.Go.Call

-- The fields that the ABI unpacks.
pub record BatchFields : Type 0 where
  pub batch_merkle_root : Bytes32
  pub task_created_block : ℕ
  pub batch_data_pointer : String

-- `WatchLogs` and `UnpackLog` of go-ethereum's bound contract, by the name of an event.
pub record Bound : Type 1 where
  pub World : Type 0
  pub Log : Type 0
  pub watch_logs : String → List Bytes32 → World → World × Result (Unit {0})
  pub unpack_log : String → Log → Result BatchFields

pub record NewBatchEvent (Log : Type 0) : Type 0 where
  pub batch_merkle_root : Bytes32
  pub task_created_block : ℕ
  pub batch_data_pointer : String
  pub raw : Log

-- Where the goroutine stands: in the outer `select`; in the inner one with an event; returned with an
-- error or nil, and unsubscribed.
pub data Place (Log : Type 0) : Type 0 where
  selecting : Place Log
  offering : NewBatchEvent Log → Place Log
  ended : Option Error → Place Log

-- The goroutine, the logs on its channel, what the program has received, and all logs that arrived.
pub record Feed (Log : Type 0) : Type 0 where
  pub place : Place Log
  pub logs : List Log
  pub sink : List (NewBatchEvent Log)
  pub history : List Log

module _ (bound : Bound) where
  open bound use {World, Log, watch_logs, unpack_log}

  unfoldable pub parse_new_batch : Log → Result (NewBatchEvent Log)
  parse_new_batch log = do
    fields ← unpack_log "NewBatch" log
    ok (record {
      batch_merkle_root = fields.batch_merkle_root;
      task_created_block = fields.task_created_block;
      batch_data_pointer = fields.batch_data_pointer;
      raw = log;
    })

  abbrev pub opened : Feed Log
  opened = record { place = selecting; logs = []; sink = []; history = [] }

  -- `WatchNewBatch`: the goroutine is started when the node has taken the subscription.
  unfoldable pub watch_new_batch : List Bytes32 → Call World (Feed Log)
  watch_new_batch batch_merkle_root =
      Call.◌>>◌ (watch_logs "NewBatch" batch_merkle_root) (Call.pure opened)

  pub data Step (f : Feed Log) : Feed Log → Type 0 where
    arrive :
        (log : Log)
        → Step f (record f { logs = f.logs ++ log ∷ []; history = f.history ++ log ∷ [] })
    take :
        {log : Log} {rest : List Log} {e : NewBatchEvent Log}
        → f.place ≡ selecting
        → f.logs ≡ log ∷ rest
        → parse_new_batch log ≡ ok e
        → Step f (record f { place = offering e; logs = rest })
    refuse :
        {log : Log} {rest : List Log} {x : Error}
        → f.place ≡ selecting
        → f.logs ≡ log ∷ rest
        → parse_new_batch log ≡ err x
        → Step f (record f { place = ended (some x); logs = rest })
    deliver :
        {e : NewBatchEvent Log}
        → f.place ≡ offering e
        → Step f (record f { place = selecting; sink = f.sink ++ e ∷ [] })
    -- The subscription fails or is closed, or the program quits, in the outer `select` or the inner.
    stop : (x : Option Error) → f.place ≡ selecting → Step f (record f { place = ended x })
    stop_offering :
        {e : NewBatchEvent Log} (x : Option Error)
        → f.place ≡ offering e
        → Step f (record f { place = ended x })

  pub data Reach : Feed Log → Type 0 where
    start : Reach opened
    later : {f g : Feed Log} → Reach f → Step f g → Reach g
