-- ===== src/Go/Map.antt =====
-- Go's `map[K]V`. The program never iterates over a map, so the order of entries is not modelled.
use beluuga.Prelude.{
  Eq, ◌==◌, eq_refl_key, ◌≡◌, refl, false, Option, none, some, List, [], ◌∷◌, arith, if◌then◌else◌,
}

pub record Map {ℓ κ} (K : Type ℓ) (V : Type κ) : Type (ℓ ⊔ κ) where
  entries : List (K × V)

module _ {ℓ κ} {K : Type ℓ} {V : Type κ} ⦃e : Eq K⦄ where
  find : K → List (K × V) → Option V
  find k [] = none
  find k ((j, v) ∷ l) = if j == k then some v else find k l

  -- `make(map[K]V)`
  pub make : Map K V
  make = record { entries = [] }

  -- `v, ok := m[k]`: `none` is `ok == false`.
  pub get : Map K V → K → Option V
  unfolding find
  get m k = find k m.entries

  -- `m[k] = v`
  pub put : Map K V → K → V → Map K V
  put m k v = record { entries = (k, v) ∷ m.entries }

  pub get-make : (k : K) → get make k ≡ none
  unfolding get make
  get-make k = refl

  pub get-put :
      (m : Map K V) (k j : K) (v : V) → get (put m k v) j ≡ (if k == j then some v else get m j)
  unfolding get put
  get-put m k j v = refl

  pub get-put_self : (m : Map K V) (k : K) (v : V) → get (put m k v) k ≡ some v
  unfolding get put
  get-put_self m k v = ground (arith, eq_refl_key k)

  pub get-put_ne : (m : Map K V) (k j : K) (v : V) → (k == j) ≡ false → get (put m k v) j ≡ get m j
  unfolding get put
  get-put_ne m k j v h = ground arith

pub ruleset map_laws = (get-make, get-put)
