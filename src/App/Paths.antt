-- ===== src/App/Paths.antt =====
-- The ways through `main`: the log fails, something is thrown, or all goes well.
use cmake_sample.Common.{
  ℕ, ◌≤◌, ◌≡◌, ◌≢◌, ◌⊎◌, inl, inr, refl, ap, ◌∙◌, Option, List, [], String, Result, ok, err, arith,
  Result-cases, Bool-cases,
}
use cmake_sample.Errors.{Foreign, Exception, show_help, my_error, foreign, is_boost, is_std}
use cmake_sample.Logging.{LogCall, debug, fatal, write, init_logging, log_setup}
use cmake_sample.Council.{council_hello, council}
use cmake_sample.Settings.{Json}
use cmake_sample.Options.{Files, Options, MyError, read_input_file}
use cmake_sample.App.{
  Text, greeting, settings, Shell, Outcome, handle, parse_args, start_log, finish, after_start,
  go_on, main_body, main, report,
}
use cmake_sample.App.CommandLine.{parse_args-ne-show_help}

-- A failed run: an exit code from 1 to 3, nothing printed, and one fatal line more.
abbrev pub Failed : {P : Type 0} → List (LogCall P Text) → Outcome P → Type 0
Failed log r =
    (1 ≤ r.exit_code)
    × (r.exit_code ≤ 3)
    × (r.printed ≡ [])
    × (text : Text) × (r.log ≡ write fatal text log)

pub handle-Failed :
    {P : Type 0} (e : Exception) (log : List (LogCall P Text))
    → ((m : Option String) → e ≢ show_help m)
    → Failed log (handle e log)
unfolding handle is_boost is_std
handle-Failed (show_help m) log h = absurd (h m refl)
handle-Failed (my_error m) log h = (omega arith, omega arith, refl, _, refl)
handle-Failed (foreign f) log h = elim (Bool-cases f.is_boost) [
  | inl e ↦ rw e (omega arith, omega arith, refl, _, refl)
  | inr e ↦ elim (Bool-cases f.is_std) [
    | inl k ↦ rw (e, k) (omega arith, omega arith, refl, _, refl)
    | inr k ↦ rw (e, k) (omega arith, omega arith, refl, _, refl)
  ]
]

module _ (json : Json) (files : Files json) (shell : Shell json files) where
  abbrev pub Logs : Type 0
  Logs = List (LogCall files.FilePath Text)

  -- The way through `main` on which nothing is thrown.
  abbrev pub Succeeds : Options json files → Options json files → Type 0
  Succeeds o o' =
      (path : files.FilePath) × (line : List ℕ) × ((start_log json files shell).1 ≡ ok tt)
      × (parse_args json files shell ≡ ok path)
      × (read_input_file json files path o ≡ (o', ok line))

  -- What the log has after the greetings, in the directory of the program.
  abbrev pub greeted_log : files.FilePath → Logs
  greeted_log dir =
      council_hello council greeting shell.boost
        (log_setup shell.join shell.file_path (shell.join dir (shell.file_path "logs")))

  pub start_cases :
      ((e : Foreign) × (start_log json files shell ≡ ([], err e)))
      ⊎ ((dir : files.FilePath) × (shell.exe_dir ≡ ok dir)
          × (start_log json files shell ≡ (
            log_setup shell.join shell.file_path (shell.join dir (shell.file_path "logs")),
            ok tt,
          )))
  unfolding start_log init_logging
  start_cases = elim (Result-cases shell.exe_dir) [
    | inr (e, h) ↦ inl (e, rw h refl)
    | inl (dir, h) ↦
        elim (Result-cases (shell.create_directories (shell.join dir (shell.file_path "logs")))) [
          | inr (e, k) ↦ inl (e, rw (h, init_logging, k) refl)
          | inl (_, k) ↦ inr (dir, h, rw (h, init_logging, k) refl)
        ]
  ]

  pub started_lem :
      (o : Options json files) (r : Logs × Result Foreign (Unit {0}))
      → start_log json files shell ≡ r
      → main json files shell o ≡ report json files shell (go_on json files shell o r)
  unfolding main main_body
  started_lem o r h = ap (λ x. report json files shell (go_on json files shell o x)) h

  -- The `try` block of `main` once the log is set up.
  after_start_cases :
      (o : Options json files) (log : Logs)
      → start_log json files shell ≡ (log, ok tt)
      → ((e : Exception) × ((m : Option String) → e ≢ show_help m)
          × ((o' : Options json files) → ¬ Succeeds o o')
          × (after_start json files shell o log
              ≡ (council_hello council greeting shell.boost log, err e)))
        ⊎ ((o' : Options json files) × (s : Succeeds o o') × (after_start json files shell o log ≡ (
          write debug (settings s.1) (council_hello council greeting shell.boost log),
          ok o',
        )))
  unfolding after_start
  after_start_cases o log h = elim (Result-cases (parse_args json files shell)) [
    | inr (e, k) ↦ inl (
      e,
      (λ m c. parse_args-ne-show_help json files shell m (k ∙ ap err c)),
      (λ o' s. let path = s.3 in cc k),
      rw (k, after_start),
    )
    | inl (path, k) ↦ elim (Result-cases (read_input_file json files path o).1) [
      | inr (e, r) ↦ inl (
        my_error e.message,
        (λ m c. cc),
        (λ o' s.
            let same : s.0 ≡ path = cc (s.3, k) in
            let done : read_input_file json files path o ≡ (o', ok s.1) = rw same at (s.4) in
            let fine = ap (λ (q : Options json files × Result MyError (List ℕ)). q.1) done in cc r),
        rw (k, after_start)
            (ap
              (λ x.
                finish json files shell (council_hello council greeting shell.boost log)
                  ((read_input_file json files path o).0, x))
              r),
      )
      | inl (line, r) ↦ inr (
        (read_input_file json files path o).0,
        (
          path,
          line,
          ap (λ (q : Logs × Result Foreign (Unit {0})). q.1) h,
          k,
          ap (λ x. ((read_input_file json files path o).0, x)) r,
        ),
        rw (k, after_start)
            (ap
              (λ x.
                finish json files shell (council_hello council greeting shell.boost log)
                  ((read_input_file json files path o).0, x))
              r),
      )
    ]
  ]

  -- What `main` comes to.
  pub main_cases :
      (o : Options json files)
      → ((e : Foreign) × (start_log json files shell ≡ ([], err e))
          × (main json files shell o ≡ handle (foreign e) []))
        ⊎ ((dir : files.FilePath) × (shell.exe_dir ≡ ok dir)
            × (((e : Exception) × ((m : Option String) → e ≢ show_help m)
                  × ((o' : Options json files) → ¬ Succeeds o o')
                  × (main json files shell o ≡ handle e (greeted_log dir)))
                ⊎ ((o' : Options json files) × (s : Succeeds o o') × (main json files shell o
                      ≡ record {
                        exit_code = 0;
                        printed = [];
                        log = write debug (settings s.1) (greeted_log dir);
                      }))))
  main_cases o = elim start_cases [
    | inl (e, h) ↦ inl (e, h, started_lem o _ h)
    | inr (dir, here, h) ↦ inr (
      dir,
      here,
      (elim (after_start_cases o _ h) [
        | inl (e, plain, bad, k) ↦
            inl (e, plain, bad, started_lem o _ h ∙ ap (report json files shell) k)
        | inr (o', s, k) ↦ inr (o', s, started_lem o _ h ∙ ap (report json files shell) k)
      ]),
    )
  ]
