-- ===== src/App/Windows.antt =====
-- src/main.cpp under Windows: the code pages of the console, which `main` sets at its start and a
-- guard sets back at its end. The console is a parameter, the record `Windows`.
use cmake_sample.Common.{ℕ, ◌≡◌, ◌∙◌}
use cmake_sample.Settings.{Json}
use cmake_sample.Options.{Files, Options}
use cmake_sample.App.{Shell, Outcome, main}

-- `GetConsoleOutputCP` and its like. What `SetConsoleOutputCP` and `SetConsoleCP` return is not
-- looked at.
pub record Windows (Console : Type 0) : Type 0 where
  pub get_console_output_cp : Console → ℕ
  pub get_console_cp : Console → ℕ
  pub set_console_output_cp : ℕ → Console → Console
  pub set_console_cp : ℕ → Console → Console

abbrev pub cp_utf8 : ℕ
cp_utf8 = 65001

-- The members of the guard.
pub record ConsoleCodePageGuard : Type 0 where
  pub old_output_cp : ℕ
  pub old_input_cp : ℕ

-- A run: what it leaves, the console while the `try` block runs, and the console behind it.
pub record ConsoleRun (Console P : Type 0) : Type 0 where
  pub outcome : Outcome P
  pub during : Console
  pub after : Console

module _ {Console : Type 0} (windows : Windows Console) where
  open windows use {get_console_output_cp, get_console_cp, set_console_output_cp, set_console_cp}

  -- The constructor and the destructor.
  pub guard : Console → ConsoleCodePageGuard
  guard c = record { old_output_cp = get_console_output_cp c; old_input_cp = get_console_cp c }

  pub leave : ConsoleCodePageGuard → Console → Console
  leave g c = set_console_cp g.old_input_cp (set_console_output_cp g.old_output_cp c)

  pub use_utf8 : Console → Console
  use_utf8 c = set_console_cp cp_utf8 (set_console_output_cp cp_utf8 c)

  pub windows_main :
      (json : Json) (files : Files json) (shell : Shell json files)
      → Options json files
      → Console
      → ConsoleRun Console files.FilePath
  windows_main json files shell o c = record {
    outcome = main json files shell o;
    during = use_utf8 c;
    after = leave (guard c) (use_utf8 c);
  }

  -- Setting the input code page leaves that of the output, and a page that a console of the program
  -- had is accepted.
  pub record IsWindows : Type 0 where
    pub output_kept :
        (page : ℕ) (c : Console)
        → get_console_output_cp (set_console_cp page c) ≡ get_console_output_cp c
    pub output_set :
        (c d : Console)
        → get_console_output_cp (set_console_output_cp (get_console_output_cp c) d)
          ≡ get_console_output_cp c
    pub input_set :
        (c d : Console) → get_console_cp (set_console_cp (get_console_cp c) d) ≡ get_console_cp c

  -- However the run ends, and whether or not the console took UTF-8, it has both of its code pages
  -- back afterwards.
  pub pages_come_back :
      IsWindows
      → (json : Json) (files : Files json) (shell : Shell json files) (o : Options json files)
        (c : Console)
      → let run = windows_main json files shell o c in
        (get_console_output_cp run.after ≡ get_console_output_cp c)
        × (get_console_cp run.after ≡ get_console_cp c)
  unfolding windows_main leave guard
  pages_come_back laws json files shell o c =
      (laws.output_kept (get_console_cp c) _ ∙ laws.output_set c _, laws.input_set c _)
