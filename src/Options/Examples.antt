-- ===== src/Options/Examples.antt =====
-- The theorems about reading an input file at example files.
use cmake_sample.Common.{ℕ, ◌≡◌, ◌⊎◌, true, some, List, [], ◌∷◌, ◌++◌, ok, err}
use cmake_sample.Settings.{InputFile, no_input, from_input_file}
use cmake_sample.Settings.Sample.{sample_json}
use cmake_sample.Options.{MyError, Options, jsonc, bom, read_input_file}
use cmake_sample.Options.Read.{Loads, read_input_file_outcome}
use cmake_sample.Options.Sequence.{read_all, AreFrom, settings_of_last_read}
use cmake_sample.Options.Sample.{print, sample_files}

abbrev some_input : InputFile
some_input = record {
  commons = record { app_name = "app"; version = "1.0" };
  communications = record {
    server = record { enable = true; name = "student-council"; service = some "12345" };
    clients =
        record {
          enable = true;
          name = "historian";
          host = some "127.0.0.1";
          service = some "12345";
        }
        ∷ [];
  };
}

abbrev saved : List ℕ
saved = bom ++ print (from_input_file sample_json some_input) []

abbrev before : Options sample_json (sample_files saved)
before = record { input_file_path = []; input_file = no_input }

-- The extension ".JsonC".
abbrev mixed : List ℕ
mixed = b'.' ∷ b'J' ∷ b's' ∷ b'o' ∷ b'n' ∷ b'C' ∷ []

-- A file with nothing in it.
abbrev nothing_read : Options sample_json (sample_files [])
nothing_read = record { input_file_path = []; input_file = no_input }

read_input_file_outcome_example :
    ((text : List ℕ) × (f : InputFile) × ((sample_files []).open_file jsonc ≡ ok text)
      × Loads sample_json (sample_files []) jsonc text f
      × (read_input_file sample_json (sample_files []) jsonc nothing_read ≡ (
        record { input_file_path = jsonc; input_file = f },
        ok (print (from_input_file sample_json f) []),
      )))
    ⊎ ((e : MyError) × ((text : List ℕ) (f : InputFile)
          → (sample_files []).open_file jsonc ≡ ok text
          → ¬ Loads sample_json (sample_files []) jsonc text f)
        × (read_input_file sample_json (sample_files []) jsonc nothing_read
            ≡ (record { input_file_path = jsonc; input_file = no_input }, err e))
        × (e.path ≡ "etc/app.jsonc"))
read_input_file_outcome_example =
    read_input_file_outcome sample_json (sample_files []) jsonc nothing_read

settings_of_last_read_example :
    let o = read_all sample_json (sample_files saved) (jsonc ∷ mixed ∷ []) before in
    AreFrom sample_json (sample_files saved) (jsonc ∷ mixed ∷ []) no_input o.input_file
    × (o.input_file_path ≡ mixed)
settings_of_last_read_example =
    settings_of_last_read sample_json (sample_files saved) (jsonc ∷ []) mixed before
