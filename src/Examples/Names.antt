-- ===== src/Examples/Names.antt =====
-- Names and ids of proving systems.
use beluuga.Prelude.{◌≡◌, ◌↔◌, ◌<◌, String, none, refl}
use beluuga.Errors.{ok}
use beluuga.Go.Outcome.{returned}
use beluuga.ProvingSystem.{string, proving_system_id_to_string}
use beluuga.ProvingSystem.Names.{string_agrees}
use beluuga.ProvingSystem.Json.{
  JsonStrings, ReadsBack, unmarshal_json, marshal_json, unmarshal_json-marshal_json,
}

-- A codec that writes a string as itself.
abbrev plain : JsonStrings
plain = record { Bytes = String; marshal = λ s. s; unmarshal = λ b. ok b }

plain_reads_back : ReadsBack plain
plain_reads_back s = refl

string_agrees_example : (string 5 ≡ returned "Halo2IPA") ↔ (5 < 4)
unfolding proving_system_id_to_string
string_agrees_example = string_agrees 5 "Halo2IPA" refl

unmarshal_json-marshal_json_example : unmarshal_json plain "Halo2KZG" 0 ≡ (4, none)
unfolding marshal_json proving_system_id_to_string
unmarshal_json-marshal_json_example =
    unmarshal_json-marshal_json plain 4 "Halo2KZG" 0 plain_reads_back refl
