-- ===== src/App/Exit.antt =====
-- What a run of `main` leaves: its exit code, what it prints, and its calls of Boost.Log.
use cmake_sample.Common.{
  ℕ, ◌+◌, ◌*◌, ◌≤◌, ◌<◌, ◌≡◌, ◌≢◌, ◌⊎◌, inl, inr, refl, ap, ◌∙◌, true, false, List, [], ◌∷◌, ◌++◌,
  String, Result, ok, err,
}
use cmake_sample.Errors.{Foreign, foreign, is_boost, is_std}
use cmake_sample.Logging.{
  LogCall, trace, debug, info, fatal, log_line, write, add_common_attributes, add_console_log,
  set_console_filter, add_file_log, set_file_filter, add_thread_id,
}
use cmake_sample.Council.{version_string, version_numbers, council_hello, council}
use cmake_sample.Council.Greetings.{council_hello_outcome}
use cmake_sample.Settings.{Json}
use cmake_sample.Options.{Files, Options}
use cmake_sample.App.{
  Text, greeting, settings, diagnostic, Arguments, Shell, upper_level, handle, parse_body,
  parse_args, start_log, after_start, main, report,
}
use cmake_sample.App.Paths.{
  Logs, Succeeds, greeted_log, started_lem, start_cases, main_cases, handle-Failed,
}

-- The texts of the fatal lines.
pub fatals : {P : Type 0} → List (LogCall P Text) → List Text
fatals [] = []
fatals (log_line fatal text ∷ rest) = text ∷ fatals rest
fatals (_ ∷ rest) = fatals rest

module _ (json : Json) (files : Files json) (shell : Shell json files) where
  fatals_debug :
      (dir : files.FilePath) (text : Text)
      → fatals (write debug text (greeted_log json files shell dir)) ≡ []
  unfolding fatals council_hello
  fatals_debug dir text = refl

  fatals_fatal :
      (dir : files.FilePath) (text : Text)
      → fatals (write fatal text (greeted_log json files shell dir)) ≡ text ∷ []
  unfolding fatals council_hello
  fatals_fatal dir text = refl

  -- The exit code is 0 exactly when the log was set up, `parse_args` settled on a path and the file
  -- was read; then no fatal line is logged. On every other run the program exits with 1, 2 or 3,
  -- and logs one fatal line. It prints nothing to `std::cout` on any run.
  pub exit_code_outcome :
      (o : Options json files)
      → let out = main json files shell o in
        (((o' : Options json files) × Succeeds json files shell o o')
          × (out.exit_code ≡ 0)
          × (out.printed ≡ [])
          × (fatals out.log ≡ []))
        ⊎ (((o' : Options json files) → ¬ Succeeds json files shell o o')
            × (1 ≤ out.exit_code)
            × (out.exit_code ≤ 3)
            × (out.printed ≡ [])
            × (text : Text) × (fatals out.log ≡ text ∷ []))
  unfolding fatals
  exit_code_outcome o = elim (main_cases json files shell o) [
    | inl (e, h, out) ↦
        let (low, high, silent, text, logged) =
          handle-Failed {P = files.FilePath} (foreign e) [] (λ m c. cc) in
        inr (
          rw out (
            (λ o' s.
                let started =
                  ap (λ (q : Logs json files shell × Result Foreign (Unit {0})). q.1) h in
                let fine = s.2 in cc),
            low,
            high,
            silent,
            text,
            ap fatals logged,
          ))
    | inr (dir, here, inl (e, plain, bad, out)) ↦
        let (low, high, silent, text, logged) =
          handle-Failed e (greeted_log json files shell dir) plain in
        inr (rw out (bad, low, high, silent, text, ap fatals logged ∙ fatals_fatal dir text))
    | inr (dir, here, inr (o', s, out)) ↦
        inl (rw out ((o', s), refl, refl, fatals_debug dir (settings s.1)))
  ]

  -- A file in `logs` beside a program in the directory.
  abbrev pub in_logs : files.FilePath → String → files.FilePath
  in_logs dir name = shell.join (shell.join dir (shell.file_path "logs")) (shell.file_path name)

  -- The set-up of the log, for a program in the directory, and the lines of the historian.
  abbrev pub greeted : ℕ → ℕ → ℕ → files.FilePath → Logs json files shell
  greeted major minor patch dir =
      (add_common_attributes
        ∷ add_console_log
        ∷ set_console_filter info
        ∷ add_file_log (record {
          file_name = in_logs dir "app_%Y%m%d.log";
          target_file_name = in_logs dir "app_%Y%m%d_%2N.log";
          is_appending = true;
          enable_final_rotation = false;
          rotation_size = 268435456;
          rotation_at = (0, 0, 0);
          auto_flush = true;
        })
        ∷ set_file_filter trace
        ∷ add_thread_id
        ∷ [])
      ++ (log_line debug (greeting (version_string shell.boost.lib_version))
          ∷ log_line debug (greeting (version_numbers major minor patch))
          ∷ [])

  -- The calls of Boost.Log in a run. Where the log could not be set up, a fatal line alone. Else
  -- the set-up: a console from `info` on, and from `trace` on the file of the day in `logs` beside the program,
  -- which is appended to, flushed, and begun anew at midnight and at 256 MiB. Then the two debug lines of
  -- the historian, and then the settings as a debug line where the file was read, and a fatal line
  -- where it was not.
  pub log_outcome :
      (major minor patch : ℕ)
      → minor < 1000
      → patch < 100
      → shell.boost.version ≡ major * 100000 + minor * 100 + patch
      → (o : Options json files)
      → let out = main json files shell o in
        (((start_log json files shell).1 ≢ ok tt)
          × (text : Text) × (out.log ≡ log_line fatal text ∷ []))
        ⊎ ((dir : files.FilePath) × (shell.exe_dir ≡ ok dir)
            × (((o' : Options json files) × (s : Succeeds json files shell o o') × (out.log
                    ≡ write debug (settings s.1) (greeted major minor patch dir)))
                ⊎ (((o' : Options json files) → ¬ Succeeds json files shell o o')
                    × (text : Text) × (out.log
                        ≡ write fatal text (greeted major minor patch dir)))))
  log_outcome major minor patch small smaller version o = elim (main_cases json files shell o) [
    | inl (e, h, out) ↦
        let (_, _, _, text, logged) =
          handle-Failed {P = files.FilePath} (foreign e) [] (λ m c. cc) in
        inl (
          (λ fine.
              let started = ap (λ (q : Logs json files shell × Result Foreign (Unit {0})). q.1) h in
              cc),
          text,
          rw out logged,
        )
    | inr (dir, here, inl (e, plain, bad, out)) ↦
        let (_, _, _, text, logged) = handle-Failed e (greeted_log json files shell dir) plain in
        inr (dir, here, inr (bad, text, rw out (logged ∙ ap (write fatal text) (said dir))))
    | inr (dir, here, inr (o', s, out)) ↦
        inr (dir, here, inl (o', s, rw out (ap (write debug (settings s.1)) (said dir))))
  ]
    where
      said :
          (dir : files.FilePath) → greeted_log json files shell dir ≡ greeted major minor patch dir
      said dir =
          council_hello_outcome greeting shell.boost _ major minor patch small smaller version

  -- `main` is asked for help on a command line that parses.
  abbrev pub AsksHelp : Type 0
  AsksHelp =
      (dir : files.FilePath) × (vm : Arguments files.FilePath) × (shell.exe_dir ≡ ok dir)
      × (shell.store (shell.file_path "app.jsonc") ≡ ok vm)
      × (vm.help ≡ true)

  args_help : AsksHelp → parse_args json files shell ≡ err upper_level
  unfolding parse_args parse_body is_std
  args_help (dir, vm, here, stored, help) = simp (here, stored, help)

  help_body :
      AsksHelp
      → (o : Options json files) (log : Logs json files shell)
      → after_start json files shell o log
        ≡ (council_hello council greeting shell.boost log, err upper_level)
  unfolding after_start
  help_body asks o log = rw (args_help asks, after_start) refl

  -- With `--help` on a command line that parses, and once the log is set up, the program prints
  -- nothing to `std::cout`, exits with 1, and logs one fatal line, about `my_error`: the exception that asks for
  -- help is replaced by it on its way to `main`.
  pub help_exits_with_one :
      (start_log json files shell).1 ≡ ok tt
      → AsksHelp
      → (o : Options json files)
      → let out = main json files shell o in
        (out.exit_code ≡ 1) × (out.printed ≡ []) × (fatals out.log ≡ diagnostic upper_level ∷ [])
  unfolding handle is_boost
  help_exits_with_one fine asks o = elim (start_cases json files shell) [
    | inl (e, h) ↦
        let started = ap (λ (q : Logs json files shell × Result Foreign (Unit {0})). q.1) h in
        absurd cc
    | inr (dir, here, h) ↦
        let out : main json files shell o ≡ handle upper_level (greeted_log json files shell dir) =
          started_lem json files shell o _ h ∙ ap (report json files shell) (help_body asks o _) in
        rw out (refl, refl, fatals_fatal dir (diagnostic upper_level))
  ]
