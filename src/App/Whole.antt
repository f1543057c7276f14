-- ===== src/App/Whole.antt =====
-- A whole run, from the command line to the log: the program on a file that settings were saved to.
use cmake_sample.Common.{◌≡◌, ◌⊎◌, inl, inr, refl, ap, [], ◌++◌, Result, ok}
use cmake_sample.Errors.{Foreign}
use cmake_sample.Logging.{write, debug}
use cmake_sample.Settings.{Json, InputFile, from_input_file}
use cmake_sample.Settings.Laws.{IsJson}
use cmake_sample.Settings.RoundTrip.{IsComplete}
use cmake_sample.Options.{Files, Options, bom, read_input_file}
use cmake_sample.Options.Laws.{IsFiles}
use cmake_sample.Options.Read.{saved_settings_read_back}
use cmake_sample.App.{settings, Shell, parse_args, start_log, main}
use cmake_sample.App.CommandLine.{Gives, parse_args_iff}
use cmake_sample.App.Paths.{Logs, Succeeds, greeted_log, main_cases}

module _ (json : Json) (laws : IsJson json) (files : Files json) (io : IsFiles json files)
    (shell : Shell json files) where
  abbrev pub Holds : files.FilePath → InputFile → Type 0
  Holds path f =
      (files.open_file path ≡ ok (files.serialize (from_input_file json f)))
      ⊎ (files.open_file path ≡ ok (bom ++ files.serialize (from_input_file json f)))

  -- A run on saved settings. Let the log be set up, let the command line give a path, and let the file there
  -- hold settings as JSON text, with or without a byte order mark, in which the server names its service and every
  -- client its host and its service. Then the program prints nothing to `std::cout` and exits with 0, and the last line of its log is
  -- a debug line with this very JSON text, whatever settings there were before.
  pub saved_settings_run :
      (path : files.FilePath) (f : InputFile)
      → (start_log json files shell).1 ≡ ok tt
      → Gives json files shell path
      → IsComplete f.communications
      → Holds path f
      → (o : Options json files)
      → let out = main json files shell o in
        (out.exit_code ≡ 0)
        × (out.printed ≡ [])
        × (log : Logs json files shell) × (out.log
            ≡ write debug (settings (files.serialize (from_input_file json f))) log)
  saved_settings_run path f started given full holds o = elim (main_cases json files shell o) [
    | inl (e, h, _) ↦
        let failed = ap (λ (q : Logs json files shell × Result Foreign (Unit {0})). q.1) h in
        absurd cc
    | inr (dir, _, inl (e, _, bad, _)) ↦ absurd (bad _ succeeds)
    | inr (dir, _, inr (o', s, out)) ↦ rw out (
      refl,
      refl,
      greeted_log json files shell dir,
      ap (λ line. write debug (settings line) (greeted_log json files shell dir)) (same_line o' s),
    )
  ]
    where
      read : read_input_file json files path o ≡ (
        record { input_file_path = path; input_file = f },
        ok (files.serialize (from_input_file json f)),
      )
      read = saved_settings_read_back json files laws io path o f full holds

      parsed : parse_args json files shell ≡ ok path
      parsed = (parse_args_iff json files shell path).1 given

      succeeds : Succeeds json files shell o (record { input_file_path = path; input_file = f })
      succeeds = (path, files.serialize (from_input_file json f), started, parsed, read)

      same_line :
          (o' : Options json files) (s : Succeeds json files shell o o')
          → s.1 ≡ files.serialize (from_input_file json f)
      same_line o' s =
          let same : s.0 ≡ path = cc (s.3, parsed) in
          let again : read_input_file json files path o ≡ (o', ok s.1) = rw same at (s.4) in cc read
