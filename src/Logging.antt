-- ===== src/Logging.antt =====
-- `init_logging` of src/main.cpp, and the lines that the program logs.
-- Boost.Log is not in the repository: what the program asks of it is kept as a list of calls, in
-- their order. The formats of the lines are left out.
use cmake_sample.Common.{ℕ, ◌*◌, Bool, true, false, List, [], ◌∷◌, ◌++◌, String, Result, ok, err}

pub data Severity : Type 0 where
  trace debug info warning error fatal : Severity

-- The arguments of `add_file_log`. `at` is the time of day at which a new file is begun.
pub record FileLog (P : Type 0) : Type 0 where
  pub file_name : P
  pub target_file_name : P
  pub is_appending : Bool
  pub enable_final_rotation : Bool
  pub rotation_size : ℕ
  pub rotation_at : ℕ × ℕ × ℕ
  pub auto_flush : Bool

-- A call of Boost.Log; the last one is `BOOST_LOG_TRIVIAL`, with a text.
pub data LogCall (P T : Type 0) : Type 0 where
  add_common_attributes : LogCall P T
  add_console_log : LogCall P T
  set_console_filter : Severity → LogCall P T
  add_file_log : FileLog P → LogCall P T
  set_file_filter : Severity → LogCall P T
  add_thread_id : LogCall P T
  log_line : Severity → T → LogCall P T

module _ {P T : Type 0} where
  -- `BOOST_LOG_TRIVIAL`, after other calls.
  abbrev pub write : Severity → T → List (LogCall P T) → List (LogCall P T)
  write severity text log = log ++ (log_line severity text ∷ [])

-- The paths come from Boost.Filesystem: `join` is its operator `/`.
module _ {P : Type 0} (join : P → P → P) (file_path : String → P) where
  abbrev pub file_log : P → FileLog P
  file_log log_dir = record {
    file_name = join log_dir (file_path "app_%Y%m%d.log");
    target_file_name = join log_dir (file_path "app_%Y%m%d_%2N.log");
    is_appending = true;
    enable_final_rotation = false;
    rotation_size = 256 * 1024 * 1024;
    rotation_at = (0, 0, 0);
    auto_flush = true;
  }

  abbrev pub log_setup : {T : Type 0} → P → List (LogCall P T)
  log_setup log_dir =
      add_common_attributes
      ∷ add_console_log
      ∷ set_console_filter info
      ∷ add_file_log (file_log log_dir)
      ∷ set_file_filter trace
      ∷ add_thread_id
      ∷ []

  -- `exe_dir` is `fs::absolute(fs::path(executable_path)).parent_path()`. Where a call of
  -- Boost.Filesystem throws, none of Boost.Log was made.
  unfoldable pub init_logging :
      {T F : Type 0} (exe_dir : Result F P) (create_directories : P → Result F (Unit {0}))
      → List (LogCall P T) × Result F (Unit {0})
  init_logging exe_dir create_directories = elim exe_dir [
    | err e ↦ ([], err e)
    | ok dir ↦ elim (create_directories (join dir (file_path "logs"))) [
      | err e ↦ ([], err e)
      | ok _ ↦ (log_setup (join dir (file_path "logs")), ok tt)
    ]
  ]
