-- ===== src/Settings/Examples.antt =====
-- The theorems about the settings at the example values.
use cmake_sample.Common.{◌≡◌, ◌⊎◌, ◌↔◌, true, none, some, [], ◌∷◌, String, ok, err}
use cmake_sample.Settings.{
  Commons, ServerSettings, ClientSettings, InputFile, from_commons, to_input_file, from_input_file,
}
use cmake_sample.Settings.Sample.{Value, sample_json, sample_json-IsJson}
use cmake_sample.Settings.RoundTrip.{IsComplete, input_file_round_trip}
use cmake_sample.Settings.Says.{SaysInputFile}
use cmake_sample.Settings.Schema.{to_input_file_iff}

abbrev some_commons : Commons
some_commons = record { app_name = "app"; version = "" }

abbrev some_server : ServerSettings
some_server = record { enable = true; name = "student-council"; service = some "12345" }

abbrev some_client : ClientSettings
some_client = record { enable = true; name = "historian"; host = some "127.0.0.1"; service = none }

abbrev some_input : InputFile
some_input = record {
  commons = some_commons;
  communications = record { server = some_server; clients = some_client ∷ [] };
}

abbrev written : Commons → Value
written = from_commons sample_json

input_file_round_trip_example :
    (IsComplete some_input.communications
      × (to_input_file sample_json (from_input_file sample_json some_input) ≡ ok some_input))
    ⊎ ((¬ IsComplete some_input.communications)
        × (e : String) × (to_input_file sample_json (from_input_file sample_json some_input)
            ≡ err e))
input_file_round_trip_example = input_file_round_trip sample_json sample_json-IsJson some_input

to_input_file_iff_example :
    (to_input_file sample_json (from_input_file sample_json some_input) ≡ ok some_input)
    ↔ SaysInputFile sample_json (from_input_file sample_json some_input) some_input
to_input_file_iff_example =
    to_input_file_iff sample_json sample_json-IsJson (from_input_file sample_json some_input)
      some_input
