-- ===== src/Operator/Foreign.antt =====
-- operator/merkle_tree/merkle_tree.go and operator/risc_zero/risc_zero.go: two wrappers of foreign functions
-- that get an array by its address, with the length of what it holds.
use beluuga.Prelude.{ℕ, Bool, List, ◌≤◌, ◌≡◌, arith}
use beluuga.Types.{Bytes32}
use beluuga.Go.Word.{u32}

abbrev pub max_batch_size : ℕ
max_batch_size = 8301009

abbrev pub max_receipt_size : ℕ
max_receipt_size = 215523

-- The length is a `uint`, of which `C.uint` keeps 32 bits.
unfoldable pub verify_merkle_tree_batch :
    (List ℕ → ℕ → Bytes32 → Bool) → List ℕ → ℕ → Bytes32 → Bool
verify_merkle_tree_batch verify_merkle_tree_batch_ffi batch batch_len root =
    verify_merkle_tree_batch_ffi batch (u32 batch_len) root

-- The length is a `uint32` already; the image id is eight words.
unfoldable pub verify_risc_zero_receipt : (List ℕ → ℕ → List ℕ → Bool) → List ℕ → ℕ → List ℕ → Bool
verify_risc_zero_receipt verify_risc_zero_receipt_ffi receipt receipt_len image_id =
    verify_risc_zero_receipt_ffi receipt receipt_len image_id

-- The length of a batch that fits into the array gets through as it is.
pub verify_merkle_tree_batch-len :
    (ffi : List ℕ → ℕ → Bytes32 → Bool) (batch : List ℕ) (batch_len : ℕ) (root : Bytes32)
    → batch_len ≤ max_batch_size
    → verify_merkle_tree_batch ffi batch batch_len root ≡ ffi batch batch_len root
unfolding verify_merkle_tree_batch
verify_merkle_tree_batch-len ffi batch batch_len root fits =
    let same : u32 batch_len ≡ batch_len = omega arith in rw same
