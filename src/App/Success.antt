-- ===== src/App/Success.antt =====
-- When the program exits with 0: a description that does not run it.
use cmake_sample.Common.{
  ℕ, ◌≡◌, ◌↔◌, inl, inr, refl, Bool, true, List, ok, arith, ◌∙◌, sym, Result-cases,
}
use cmake_sample.Logging.{init_logging}
use cmake_sample.Settings.{Json, InputFile}
use cmake_sample.Settings.Laws.{IsJson}
use cmake_sample.Settings.Says.{SaysInputFile}
use cmake_sample.Settings.Schema.{to_input_file_iff}
use cmake_sample.Options.{Files, Options, is_jsonc_path, strip_bom}
use cmake_sample.Options.Laws.{
  Behind, strip_bom-Behind, Behind-strip_bom, SaysJsonc, Tells, told_same, is_jsonc_path-Tells,
}
use cmake_sample.Options.Read.{Loads, read-Loads, read_input_file_outcome}
use cmake_sample.App.{Shell, start_log, main}
use cmake_sample.App.CommandLine.{Gives, parse_args_iff}
use cmake_sample.App.Paths.{Succeeds}
use cmake_sample.App.Exit.{exit_code_outcome}

module _ (json : Json) (laws : IsJson json) (files : Files json) (shell : Shell json files) where
  -- The program knows its directory, and `logs` beside it can be made.
  abbrev pub Starts : files.FilePath → Type 0
  Starts dir =
      (shell.exe_dir ≡ ok dir)
      × (shell.create_directories (shell.join dir (shell.file_path "logs")) ≡ ok tt)

  -- The file opens, and its text, behind a byte order mark or not, is JSON that says settings, with
  -- trailing commas at will, and comments for the extension `.jsonc`.
  abbrev pub Contains : files.FilePath → InputFile → Type 0
  Contains path f =
      (text : List ℕ) × (body : List ℕ) × (comments : Bool) × (v : json.Value) × (files.open_file
          path
        ≡ ok text)
      × Behind text body
      × Tells comments (SaysJsonc (files.extension path))
      × (files.parse comments true body ≡ ok v)
      × SaysInputFile json v f

  abbrev pub IsGoodRun : Type 0
  IsGoodRun =
      (dir : files.FilePath) × (path : files.FilePath) × (f : InputFile) × Starts dir
      × Gives json files shell path
      × Contains path f

  log_started : (dir : files.FilePath) → Starts dir → (start_log json files shell).1 ≡ ok tt
  unfolding start_log init_logging
  log_started dir (here, made) = rw (here, init_logging, made) refl

  when_started : (start_log json files shell).1 ≡ ok tt → (dir : files.FilePath) × Starts dir
  unfolding start_log init_logging
  when_started e = elim (Result-cases shell.exe_dir) [
    | inr (x, h) ↦ absurd (let failed = rw (h, init_logging) at e in cc failed)
    | inl (dir, h) ↦
        elim (Result-cases (shell.create_directories (shell.join dir (shell.file_path "logs")))) [
          | inr (x, k) ↦ absurd (let failed = rw (h, init_logging, k) at e in cc failed)
          | inl (u, k) ↦ (dir, (h, k))
        ]
  ]

  way_through :
      (o : Options json files)
      → IsGoodRun
      → (o' : Options json files) × Succeeds json files shell o o'
  way_through o
        (
          dir,
          path,
          f,
          starts,
          given,
          (text, body, comments, v, opened, behind, tells, parsed, says),
        ) =
      let allowed : is_jsonc_path json files path ≡ comments =
        told_same _ comments (is_jsonc_path-Tells json files path) tells in
      let bare : strip_bom text ≡ body = Behind-strip_bom text body behind in
      let loads : Loads json files path text f =
        (v, rw (allowed, bare) parsed, (to_input_file_iff json laws v f).1 says) in
      (
        _,
        (
          path,
          _,
          log_started dir starts,
          (parse_args_iff json files shell path).1 given,
          read-Loads json files path o text f opened loads,
        ),
      )

  way_back : (o o' : Options json files) → Succeeds json files shell o o' → IsGoodRun
  way_back o o' (path, line, started, parsed, read) =
      let (dir, starts) = when_started started in
      elim (read_input_file_outcome json files path o) [
        | inr (e, _, failed, _) ↦ (let same_run = sym read ∙ failed in cc)
        | inl (text, f, opened, (v, well, converts), _) ↦ (
          dir,
          path,
          f,
          starts,
          (parse_args_iff json files shell path).0 parsed,
          (
            text,
            strip_bom text,
            is_jsonc_path json files path,
            v,
            opened,
            strip_bom-Behind text,
            is_jsonc_path-Tells json files path,
            well,
            (to_input_file_iff json laws v f).0 converts,
          ),
        )
      ]

  -- The program exits with 0 exactly on a good run: it knows its directory and can make `logs`
  -- there; the command line is parsed without `--help`, and gives a path, as it stands or below the
  -- directory; and the text of this file, behind a byte order mark or not, is JSON, with comments only for
  -- `.jsonc`, in any mixture of cases, that says settings, each member of its type or missing. What the options held before makes no difference.
  pub exit_zero_iff :
      (o : Options json files) → ((main json files shell o).exit_code ≡ 0) ↔ IsGoodRun
  exit_zero_iff o = (
    λ e. elim (exit_code_outcome json files shell o) [
      | inl ((o', s), _, _, _) ↦ way_back o o' s
      | inr (_, low, _, _, _, _) ↦ absurd (omega arith)
    ],
    λ good.
        let (o', s) = way_through o good in
        elim (exit_code_outcome json files shell o) [
          | inl (_, zero_code, _, _) ↦ zero_code
          | inr (bad, _, _, _, _, _) ↦ absurd (bad o' s)
        ],
  )
