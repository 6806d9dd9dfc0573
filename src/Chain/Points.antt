-- ===== src/Chain/Points.antt =====
-- core/utils/eth_crypto_utils.go: points of BN254 as the contract bindings want them. The coordinates
-- are elements of a field of gnark-crypto, which `BigInt` reads as numbers.
use beluuga.Prelude.{ℕ}

pub record G1Point (F : Type 0) : Type 0 where
  pub x : F
  pub y : F

-- An element `a0 + a1 * u` of the quadratic extension.
pub record E2 (F : Type 0) : Type 0 where
  pub a0 : F
  pub a1 : F

pub record G2Point (F : Type 0) : Type 0 where
  pub x : E2 F
  pub y : E2 F

pub record Bn254G1Point : Type 0 where
  pub x : ℕ
  pub y : ℕ

-- The arrays of length 2 are pairs.
pub record Bn254G2Point : Type 0 where
  pub x : ℕ × ℕ
  pub y : ℕ × ℕ

module _ {F : Type 0} (big_int : F → ℕ) where
  unfoldable pub convert_to_bn254_g1_point : G1Point F → Bn254G1Point
  convert_to_bn254_g1_point p = record { x = big_int p.x; y = big_int p.y }

  -- The coefficient of `u` comes first.
  unfoldable pub convert_to_bn254_g2_point : G2Point F → Bn254G2Point
  convert_to_bn254_g2_point p = record {
    x = (big_int p.x.a1, big_int p.x.a0);
    y = (big_int p.y.a1, big_int p.y.a0);
  }
