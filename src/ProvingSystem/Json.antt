-- ===== src/ProvingSystem/Json.antt =====
-- `MarshalJSON` and `UnmarshalJSON` of common/proving_systems.go. The codec of JSON strings is that of
-- encoding/json and enters as a parameter.
use beluuga.Prelude.{◌≡◌, ◌≤◌, ◌↔◌, inl, inr, String, Option, none, some, arith}
use beluuga.Errors.{Error, Result, ok, err, Result-cases, ok-injective, invalid_proving_system_id}
use beluuga.ProvingSystem.{
  ProvingSystemId, proving_system_id_from_string, proving_system_id_to_string,
}
use beluuga.ProvingSystem.Names.{from_string-to_string}

-- `json.Marshal` and `json.Unmarshal` at the type `string`.
pub record JsonStrings : Type 1 where
  pub Bytes : Type 0
  pub marshal : String → Bytes
  pub unmarshal : Bytes → Result String

-- encoding/json reads back the strings that it writes.
abbrev pub ReadsBack : JsonStrings → Type 0
ReadsBack j = (s : String) → j.unmarshal (j.marshal s) ≡ ok s

module _ (j : JsonStrings) where
  open j use {Bytes, marshal, unmarshal}

  abbrev assign : Result String → ProvingSystemId → ProvingSystemId × Option Error
  assign (ok s) t = proving_system_id_from_string s
  assign (err e) t = (t, some e)

  -- The receiver's new value and the error. A bad name stores the id 0 before the error returns.
  unfoldable pub unmarshal_json : Bytes → ProvingSystemId → ProvingSystemId × Option Error
  unmarshal_json b t = assign (unmarshal b) t

  abbrev marshal_name : Result String → ProvingSystemId → Result Bytes
  marshal_name (ok s) t = ok (marshal s)
  marshal_name (err e) t = err (invalid_proving_system_id t)

  unfoldable pub marshal_json : ProvingSystemId → Result Bytes
  marshal_json t = marshal_name (proving_system_id_to_string t) t

  -- With a codec that reads back its strings: what `MarshalJSON` writes for an id, `UnmarshalJSON`
  -- reads as that id, whatever the receiver held.
  pub unmarshal_json-marshal_json :
      (t : ProvingSystemId) (b : Bytes) (old : ProvingSystemId)
      → ReadsBack j
      → marshal_json t ≡ ok b
      → unmarshal_json b old ≡ (t, none)
  unfolding unmarshal_json marshal_json
  unmarshal_json-marshal_json t b old back h = elim (Result-cases (proving_system_id_to_string t)) [
    | inl (s, e) ↦
        let written : marshal s ≡ b = ok-injective (rw e at h) in
        rw (← written, back s, (from_string-to_string s t).1 e)
    | inr (x, e) ↦ cc (rw e at h)
  ]

  -- `MarshalJSON` fails, with its own error, exactly on the ids that name no proving system.
  pub marshal_json_fails :
      (t : ProvingSystemId) → (marshal_json t ≡ err (invalid_proving_system_id t)) ↔ (6 ≤ t)
  unfolding marshal_json proving_system_id_to_string
  marshal_json_fails t = ground arith
