-- ===== src/Operator/Download/Gate.antt =====
-- What the `HEAD` request decides.
use beluuga.Prelude.{◌≡◌, ◌≢◌, ◌⊎◌, inl, inr, ◌==◌, String, List, if◌then◌else◌, arith}
use beluuga.Prelude.Keys.{nat_eq}
use beluuga.Prelude.Int.{ℤ, ◌≤ℤ◌, ◌<ℤ◌}
use beluuga.Errors.{ok, err, Result-cases, proof_too_large, head_status}
use beluuga.Operator.Data.{VerificationData}
use beluuga.Operator.Download.{HeadResponse, Http, fetch, get_batch_from_s3}

module _ (http : Http) (max_batch_size : ℤ) (url : String) (w : http.World) where
  open http use {World, head}

  -- A batch is returned only after a `HEAD` request that was answered by 200 with a length of at most
  -- the configured size, and it is what the download after that request returns.
  pub download_checks :
      {w' : World} {batch : List VerificationData}
      → get_batch_from_s3 http max_batch_size url w ≡ (w', ok batch)
      → (resp : HeadResponse) × ((head url w).1 ≡ ok resp)
        × (resp.status_code ≡ 200)
        × (resp.content_length ≤ℤ max_batch_size)
        × (fetch http url (head url w).0 ≡ (w', ok batch))
  unfolding get_batch_from_s3
  download_checks h = elim (Result-cases (head url w).1) [
    | inl (resp, e) ↦ (resp, e, ground arith, ground arith, ground arith)
    | inr (x, e) ↦ absurd (ground arith)
  ]

  -- A batch that the `HEAD` request reports with another status, or with a length above the configured
  -- size, is refused and nothing is downloaded: the world is as the `HEAD` request left it.
  pub download_refuses :
      (resp : HeadResponse)
      → (head url w).1 ≡ ok resp
      → (resp.status_code ≢ 200) ⊎ (max_batch_size <ℤ resp.content_length)
      → get_batch_from_s3 http max_batch_size url w ≡ (
        (head url w).0,
        err (if resp.status_code == 200 then proof_too_large else head_status resp.status_code),
      )
  unfolding get_batch_from_s3
  download_refuses resp h bad = ground arith
