-- ===== src/App/Examples.antt =====
-- The theorems about the program at example command lines.
use cmake_sample.Common.{
  ℕ, ◌≡◌, ◌≢◌, ◌≤◌, ◌⊎◌, ◌↔◌, inl, refl, Bool, true, false, some, List, [], ◌∷◌, arith, ◌++◌, ok,
}
use cmake_sample.Settings.{InputFile, no_input, from_input_file}
use cmake_sample.Settings.Sample.{sample_json, sample_json-IsJson}
use cmake_sample.Options.{Files, Options, jsonc}
use cmake_sample.Options.Sample.{sample_files, sample_files-IsFiles}
use cmake_sample.Logging.{write, debug, fatal, log_line, init_logging}
use cmake_sample.App.{
  settings, diagnostic, upper_level, Text, Shell, start_log, parse_args, is_regular_input_file,
  main,
}
use cmake_sample.App.CommandLine.{Gives, parse_args_iff}
use cmake_sample.App.Paths.{Logs, Succeeds}
use cmake_sample.App.Windows.{Windows, IsWindows}
use cmake_sample.App.Success.{IsGoodRun, exit_zero_iff}
use cmake_sample.App.Whole.{saved_settings_run}
use cmake_sample.App.Exit.{fatals, greeted, help_exits_with_one, exit_code_outcome, log_outcome}

abbrev no_files : Files sample_json
no_files = sample_files []

abbrev is_file : List ℕ → Bool
is_file [] = false
is_file (x ∷ xs) = true

-- A shell with or without `--help` on the command line, where every path but the empty one is a
-- file.
abbrev shell_on : (content : List ℕ) → Bool → Shell sample_json (sample_files content)
shell_on content help = record {
  create_directories = λ p. ok tt;
  boost = record { lib_version = "1_86"; version = 108600 };
  exe_dir = ok (b'/' ∷ []);
  file_path = λ s. jsonc;
  store = λ p. ok (record { help = help; input = p });
  notify = λ vm. ok tt;
  help_text = "Options";
  exists = λ p. ok (is_file p);
  status = λ p. ok (is_file p);
  is_relative = λ p. true;
  join = λ p q. p ++ q;
}

abbrev shell : Bool → Shell sample_json no_files
shell = shell_on []

abbrev at_start : Options sample_json no_files
at_start = record { input_file_path = []; input_file = no_input }

parse_args_iff_example :
    (parse_args sample_json no_files (shell false) ≡ ok jsonc)
    ↔ Gives sample_json no_files (shell false) jsonc
parse_args_iff_example = parse_args_iff sample_json no_files (shell false) jsonc

starts : (start_log sample_json no_files (shell true)).1 ≡ ok tt
unfolding start_log init_logging
starts = refl

help_exits_with_one_example :
    let out = main sample_json no_files (shell true) at_start in
    (out.exit_code ≡ 1) × (out.printed ≡ []) × (fatals out.log ≡ diagnostic upper_level ∷ [])
help_exits_with_one_example =
    help_exits_with_one sample_json no_files (shell true) starts
      (b'/' ∷ [], record { help = true; input = jsonc }, refl, refl, refl) at_start

exit_code_outcome_example :
    let out = main sample_json no_files (shell false) at_start in
    (((o' : Options sample_json no_files) × Succeeds sample_json no_files (shell false) at_start o')
      × (out.exit_code ≡ 0)
      × (out.printed ≡ [])
      × (fatals out.log ≡ []))
    ⊎ (((o' : Options sample_json no_files)
          → ¬ Succeeds sample_json no_files (shell false) at_start o')
        × (1 ≤ out.exit_code)
        × (out.exit_code ≤ 3)
        × (out.printed ≡ [])
        × (text : Text) × (fatals out.log ≡ text ∷ []))
exit_code_outcome_example = exit_code_outcome sample_json no_files (shell false) at_start

log_outcome_example :
    let out = main sample_json no_files (shell false) at_start in
    (((start_log sample_json no_files (shell false)).1 ≢ ok tt)
      × (text : Text) × (out.log ≡ log_line fatal text ∷ []))
    ⊎ ((dir : List ℕ) × ((shell false).exe_dir ≡ ok dir)
        × (((o' : Options sample_json no_files) × (s : Succeeds sample_json no_files
                (shell false)
                at_start
                o')
              × (out.log
                  ≡ write debug
                      (settings s.1)
                      (greeted sample_json no_files (shell false) 1 86 0 dir)))
            ⊎ (((o' : Options sample_json no_files)
                  → ¬ Succeeds sample_json no_files (shell false) at_start o')
                × (text : Text) × (out.log
                    ≡ write fatal text (greeted sample_json no_files (shell false) 1 86 0 dir)))))
log_outcome_example =
    log_outcome sample_json no_files (shell false) 1 86 0 (omega arith) (omega arith) refl at_start

abbrev one_server : InputFile
one_server = record no_input {
  communications = record {
    server = record { enable = true; name = "student-council"; service = some "12345" };
    clients = [];
  };
}

-- What the files hold: the settings, as the library prints them.
abbrev content : List ℕ
content = no_files.serialize (from_input_file sample_json one_server)

abbrev before : Options sample_json (sample_files content)
before = record { input_file_path = []; input_file = no_input }

jsonc-Gives : Gives sample_json (sample_files content) (shell_on content false) jsonc
unfolding is_regular_input_file
jsonc-Gives = (
  b'/' ∷ [],
  record { help = false; input = jsonc },
  refl,
  refl,
  refl,
  refl,
  inl ((refl, refl), refl),
)

saved_starts : (start_log sample_json (sample_files content) (shell_on content false)).1 ≡ ok tt
unfolding start_log init_logging
saved_starts = refl

saved_settings_run_example :
    let out = main sample_json (sample_files content) (shell_on content false) before in
    (out.exit_code ≡ 0)
    × (out.printed ≡ [])
    × (log : Logs sample_json (sample_files content) (shell_on content false)) × (out.log
        ≡ write debug (settings content) log)
saved_settings_run_example =
    saved_settings_run sample_json sample_json-IsJson (sample_files content)
      (sample_files-IsFiles content) (shell_on content false) jsonc one_server saved_starts
      jsonc-Gives ((λ e. cc), tt) (inl refl) before

exit_zero_iff_example :
    ((main sample_json (sample_files content) (shell_on content false) before).exit_code ≡ 0)
    ↔ IsGoodRun sample_json sample_json-IsJson (sample_files content) (shell_on content false)
exit_zero_iff_example =
    exit_zero_iff sample_json sample_json-IsJson (sample_files content) (shell_on content false)
      before

-- A console: its two code pages.
abbrev pages : Windows (ℕ × ℕ)
pages = record {
  get_console_output_cp = λ c. c.0;
  get_console_cp = λ c. c.1;
  set_console_output_cp = λ page c. (page, c.1);
  set_console_cp = λ page c. (c.0, page);
}

pages-IsWindows : IsWindows pages
pages-IsWindows = record {
  output_kept = λ page c. refl;
  output_set = λ c d. refl;
  input_set = λ c d. refl;
}
