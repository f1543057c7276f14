-- ===== src/App.antt =====
-- src/main.cpp: the choice of the input file from the command line, and `main`, which starts the
-- log, lets the student council greet, has the options read the file, and turns what is thrown into
-- an exit code. Boost.Program_options and Boost.Filesystem are a parameter, the record `Shell`.
pub mod CommandLine
pub mod Paths
pub mod Exit
pub mod Whole
pub mod Success
pub mod Windows
pub mod Examples
use cmake_sample.Common.{
  ℕ, ◌≡◌, Bool, true, false, not, ◌&&◌, Option, none, some, List, [], ◌∷◌, String, Result, ok, err,
  ◌>>=◌, if◌then◌else◌,
}
use cmake_sample.Errors.{Foreign, Exception, show_help, my_error, foreign, is_boost, is_std}
use cmake_sample.Logging.{LogCall, debug, fatal, write, init_logging}
use cmake_sample.Council.{Boost, Greeting, council_hello, council_run, council}
use cmake_sample.Settings.{Json}
use cmake_sample.Options.{Files, MyError, Options, read_input_file}

-- The parsed command line, `vm`: whether `help` was counted, and `input`, which the library sets to
-- the default where no argument gives it.
pub record Arguments {ℓ} (P : Type ℓ) : Type ℓ where
  pub help : Bool
  pub input : P

-- What `main.cpp` calls. `exe_dir` is `fs::absolute(fs::path(argv[0])).parent_path()`, `store` gets
-- the default for `input`, and `status` tells a regular file, or fails with the text of its error
-- code.
pub record Shell (json : Json) (files : Files json) : Type 0 where
  pub create_directories : files.FilePath → Result Foreign (Unit {0})
  pub boost : Boost
  pub exe_dir : Result Foreign files.FilePath
  pub file_path : String → files.FilePath
  pub store : files.FilePath → Result Foreign (Arguments files.FilePath)
  pub notify : Arguments files.FilePath → Result Foreign (Unit {0})
  pub help_text : String
  pub exists : files.FilePath → Result Foreign Bool
  pub status : files.FilePath → Result String Bool
  pub is_relative : files.FilePath → Bool
  pub join : files.FilePath → files.FilePath → files.FilePath

-- An exception of a library on its way out.
abbrev pub lift {ℓ} : {A : Type ℓ} → Result Foreign A → Result Exception A
lift (ok a) = ok a
lift (err e) = err (foreign e)

-- `catch (const std::exception &)` with a handler that throws.
abbrev pub rethrow_std {ℓ} : {A : Type ℓ} → Exception → Result Exception A → Result Exception A
rethrow_std e' (ok a) = ok a
rethrow_std e' (err e) = if is_std e then err e' else err e

abbrev pub upper_level : Exception
upper_level = my_error "上位レベルのエラーが発生しました。"

-- What a line of the log says: the historian's greetings, the settings as JSON, the text of
-- `boost::diagnostic_information`, that of `what()`, or the text of the last handler.
pub data Text : Type 0 where
  greeting : Greeting → Text
  settings : List ℕ → Text
  diagnostic : Exception → Text
  described : Exception → Text
  unknown_error : Text

-- What a run of the program leaves: its exit code, what it printed to `std::cout`, and its calls of
-- Boost.Log. What the sinks make of these, the console on `std::clog` too, is for Boost.Log to do.
pub record Outcome (P : Type 0) : Type 0 where
  pub exit_code : ℕ
  pub printed : List String
  pub log : List (LogCall P Text)

pub usage : List String
usage =
    "Usage: app [Options]" ∷ "Options:" ∷ "  -i [--input] arg    入力ファイル"
    ∷ "  -h [--help]         ヘルプを表示" ∷ []

-- `BOOST_LOG_TRIVIAL(fatal)`, and the exit code.
abbrev pub fail : {P : Type 0} → ℕ → Text → List (LogCall P Text) → Outcome P
fail code text log = record { exit_code = code; printed = []; log = write fatal text log }

-- The handlers of `main`, in their order.
pub handle : {P : Type 0} → Exception → List (LogCall P Text) → Outcome P
handle (show_help (some message)) log = record { exit_code = 0; printed = message ∷ []; log = log }
handle (show_help none) log = record { exit_code = 0; printed = usage; log = log }
handle e log =
    if is_boost e
    then fail 1 (diagnostic e) log
    else if is_std e
    then fail 2 (described e) log
    else fail 3 unknown_error log

module _ (json : Json) (files : Files json) (shell : Shell json files) where
  open shell use {
    exe_dir, create_directories, boost, file_path, store, notify, help_text, exists, status,
    is_relative, join,
  }

  -- The lambda of `parse_args`.
  unfoldable pub is_regular_input_file : files.FilePath → Result Exception Bool
  is_regular_input_file p = do
    found ← lift (exists p)
    if found
        then (elim (status p) [
          | ok regular ↦ ok regular
          | err text ↦ err (foreign (record { is_boost = true; is_std = true; text = text }))
        ])
        else ok false

  beside_program : files.FilePath → files.FilePath → Result Exception files.FilePath
  beside_program dir input = do
    regular ← is_regular_input_file (join dir input)
    if regular then ok (join dir input) else err (my_error "入力ファイルが存在しません。")

  -- The choice between the path as it was given and the path below the directory of the program.
  pub find_input_file : files.FilePath → files.FilePath → Result Exception files.FilePath
  find_input_file dir input = do
    regular ← is_regular_input_file input
    if regular then ok input else if is_relative input then beside_program dir input else ok input

  -- The `try` block of `parse_args`.
  pub parse_body : files.FilePath → Result Exception files.FilePath
  parse_body dir = do
    vm ← lift (store (file_path "app.jsonc"))
    if vm.help
        then err (show_help (some help_text))
        else (lift (notify vm) >>= λ _. find_input_file dir vm.input)

  pub parse_args : Result Exception files.FilePath
  parse_args = do dir ← lift exe_dir; rethrow_std upper_level (parse_body dir)

  abbrev pub AppLog : Type 0
  AppLog = List (LogCall files.FilePath Text)

  unfoldable pub start_log : AppLog × Result Foreign (Unit {0})
  start_log = init_logging join file_path exe_dir create_directories

  -- The end of `read_input_file` in `main`, the debug line or the exception, and then `run`.
  abbrev pub finish :
      AppLog
      → Options json files × Result MyError (List ℕ)
      → AppLog × Result Exception (Options json files)
  finish log (o', ok line) = (write debug (settings line) log, ok (council_run council o'))
  finish log (o', err e) = (log, err (my_error e.message))

  -- The `try` block of `main` from `hello` on.
  pub after_start : Options json files → AppLog → AppLog × Result Exception (Options json files)
  after_start o started =
      let greeted = council_hello council greeting boost started in
      elim parse_args [
        | err e ↦ (greeted, err e)
        | ok path ↦ finish greeted (read_input_file json files path o)
      ]

  abbrev pub go_on :
      Options json files
      → AppLog × Result Foreign (Unit {0})
      → AppLog × Result Exception (Options json files)
  go_on o (log, err e) = (log, err (foreign e))
  go_on o (log, ok _) = after_start o log

  -- The `try` block of `main`, on the options singleton.
  pub main_body : Options json files → AppLog × Result Exception (Options json files)
  main_body o = go_on o start_log

  abbrev pub report : AppLog × Result Exception (Options json files) → Outcome files.FilePath
  report (log, ok o) = record { exit_code = 0; printed = []; log = log }
  report (log, err e) = handle e log

  pub main : Options json files → Outcome files.FilePath
  main o = report (main_body o)
