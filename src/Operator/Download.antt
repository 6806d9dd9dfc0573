-- ===== src/Operator/Download.antt =====
-- operator/pkg/s3.go: `getBatchFromS3`.
pub mod Gate
use beluuga.Prelude.{ℕ, ◌==◌, Bool, String, List, if◌then◌else◌}
use beluuga.Prelude.Keys.{nat_eq}
use beluuga.Prelude.Int.{ℤ, ltb_ℤ}
use beluuga.Errors.{Error, Result, ok, err, head_status, proof_too_large}
use beluuga.Go.Call.{Call, ◌>>=◌, fail}
use beluuga.Operator.Data.{VerificationData}

-- What the program reads of the answer to a `HEAD` request. The length is -1 where it is not known.
pub record HeadResponse : Type 0 where
  pub status_code : ℕ
  pub content_length : ℤ

-- The calls of net/http and io, on the world, and `json.Unmarshal` at the type of a batch.
pub record Http : Type 1 where
  pub World : Type 0
  pub Body : Type 0
  pub head : String → World → World × Result HeadResponse
  pub get : String → World → World × Result Body
  pub read_all : Body → World → World × Result (List ℕ)
  pub close : Body → World → World
  pub unmarshal : List ℕ → Result (List VerificationData)

module _ (http : Http) where
  open http use {World, Body, head, get, read_all, close, unmarshal}

  -- The deferred `Close`.
  unfoldable pub then_close : {A : Type 0} → Body → Call World A → Call World A
  then_close body call w = (close body (call w).0, (call w).1)

  read_batch : Body → Call World (List VerificationData)
  read_batch body = do proof ← read_all body; λ w. (w, unmarshal proof)

  -- The part behind the checks.
  unfoldable pub fetch : String → Call World (List VerificationData)
  unfolding then_close read_batch
  fetch url = do body ← get url; then_close body (read_batch body)

  -- The test of the status, ahead of the test of the length.
  abbrev checked :
      HeadResponse → Call World (List VerificationData) → Call World (List VerificationData)
  checked resp rest = if resp.status_code == 200 then rest else fail (head_status resp.status_code)

  unfoldable pub get_batch_from_s3 : ℤ → String → Call World (List VerificationData)
  unfolding fetch
  get_batch_from_s3 max_batch_size url = do
    resp ← head url
    checked resp
        (if ltb_ℤ max_batch_size resp.content_length then fail proof_too_large else fetch url)
