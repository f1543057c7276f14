-- ===== src/App/CommandLine.antt =====
-- `parse_args`: which input file it settles on, and what it throws.
use cmake_sample.Common.{
  ◌≡◌, ◌≢◌, ◌⊎◌, ◌↔◌, inl, inr, true, false, Option, some, String, Result, ok, err, arith,
  Result-cases, Bool-cases,
}
use cmake_sample.Errors.{Exception, show_help, my_error, foreign, is_std}
use cmake_sample.Settings.{Json}
use cmake_sample.Options.{Files}
use cmake_sample.App.{
  Arguments, Shell, rethrow_std, upper_level, is_regular_input_file, beside_program,
  find_input_file, parse_body, parse_args,
}

module _ (json : Json) (files : Files json) (shell : Shell json files) where
  -- There is something at the path, and it is a regular file.
  abbrev pub IsRegular : files.FilePath → Type 0
  IsRegular p = (shell.exists p ≡ ok true) × (shell.status p ≡ ok true)

  -- There is nothing at the path, or something else, a directory say.
  abbrev pub IsOther : files.FilePath → Type 0
  IsOther p =
      (shell.exists p ≡ ok false) ⊎ ((shell.exists p ≡ ok true) × (shell.status p ≡ ok false))

  -- The path for a given input: the input itself if it is a regular file or absolute, else the file
  -- of that name beside the program if it is regular.
  abbrev pub Chosen : files.FilePath → files.FilePath → files.FilePath → Type 0
  Chosen dir input p =
      (IsRegular input × (p ≡ input))
      ⊎ (IsOther input × (shell.is_relative input ≡ false) × (p ≡ input))
      ⊎ (IsOther input
          × (shell.is_relative input ≡ true)
          × IsRegular (shell.join dir input)
          × (p ≡ shell.join dir input))

  find_input_file_iff :
      (dir input p : files.FilePath)
      → (find_input_file json files shell dir input ≡ ok p) ↔ Chosen dir input p
  unfolding find_input_file beside_program is_regular_input_file
  find_input_file_iff dir input p = ((λ e. ground arith), (λ e. ground arith))

  -- The handler lets nothing of the program's own through but `my_error`.
  rethrow-ne-show_help :
      {A : Type 0} (r : Result Exception A) (m : Option String)
      → rethrow_std upper_level r ≢ err (show_help m)
  unfolding is_std
  rethrow-ne-show_help (ok a) m e = cc
  rethrow-ne-show_help (err (show_help text)) m e = cc
  rethrow-ne-show_help (err (my_error text)) m e = cc
  rethrow-ne-show_help (err (foreign f)) m e = ground arith

  -- `parse_args` never throws `show_help`, though its body does: its own handler of `std::exception`
  -- replaces that exception, so `main` cannot see it.
  pub parse_args-ne-show_help :
      (m : Option String) → parse_args json files shell ≢ err (show_help m)
  unfolding parse_args
  parse_args-ne-show_help m e = elim (Result-cases shell.exe_dir) [
    | inr (f, h) ↦ let no_dir : err (foreign f) ≡ err (show_help m) = simp h at e in cc
    | inl (dir, h) ↦ rethrow-ne-show_help (parse_body json files shell dir) m (simp h at e)
  ]

  body_ok :
      (dir p : files.FilePath)
      → parse_body json files shell dir ≡ ok p
      → (vm : Arguments files.FilePath) × (shell.store (shell.file_path "app.jsonc") ≡ ok vm)
        × (vm.help ≡ false)
        × (shell.notify vm ≡ ok tt)
        × (find_input_file json files shell dir vm.input ≡ ok p)
  unfolding parse_body
  body_ok dir p e = elim (Result-cases (shell.store (shell.file_path "app.jsonc"))) [
    | inr (f, h) ↦ let failed : err (foreign f) ≡ ok p = simp h at e in cc
    | inl (vm, h) ↦ elim (Bool-cases vm.help) [
      | inl help ↦
          let asked : err (show_help (some shell.help_text)) ≡ ok p = simp (h, help) at e in cc
      | inr plain ↦ elim (Result-cases (shell.notify vm)) [
        | inr (f, k) ↦ let failed : err (foreign f) ≡ ok p = simp (h, plain, k) at e in cc
        | inl (u, k) ↦ (vm, h, plain, k, simp (h, plain, k) at e)
      ]
    ]
  ]

  body_of :
      (dir p : files.FilePath) (vm : Arguments files.FilePath)
      → shell.store (shell.file_path "app.jsonc") ≡ ok vm
      → vm.help ≡ false
      → shell.notify vm ≡ ok tt
      → find_input_file json files shell dir vm.input ≡ ok p
      → parse_body json files shell dir ≡ ok p
  unfolding parse_body
  body_of dir p vm a b c d = ground arith

  args_ok :
      (p : files.FilePath)
      → parse_args json files shell ≡ ok p
      → (dir : files.FilePath) × (shell.exe_dir ≡ ok dir) × (parse_body json files shell dir ≡ ok p)
  unfolding parse_args
  args_ok p e = ground arith

  args_of :
      (dir p : files.FilePath)
      → shell.exe_dir ≡ ok dir
      → parse_body json files shell dir ≡ ok p
      → parse_args json files shell ≡ ok p
  unfolding parse_args
  args_of dir p h e = ground arith

  -- The directory of the program is known, the command line is parsed, without `--help` in it, and
  -- the path is the one chosen for the input that it gives.
  abbrev pub Gives : files.FilePath → Type 0
  Gives p =
      (dir : files.FilePath) × (vm : Arguments files.FilePath) × (shell.exe_dir ≡ ok dir)
      × (shell.store (shell.file_path "app.jsonc") ≡ ok vm)
      × (vm.help ≡ false)
      × (shell.notify vm ≡ ok tt)
      × Chosen dir vm.input p

  -- `parse_args` returns a path exactly when the directory of the program is known, the command line
  -- is parsed without `--help` in it, and the path is the one chosen for the input that it gives. That is the input
  -- itself where it is a regular file; and where there is nothing or no regular file, an absolute path all the
  -- same, and for a relative one the file of that name beside the program, which has to be regular.
  pub parse_args_iff : (p : files.FilePath) → (parse_args json files shell ≡ ok p) ↔ Gives p
  parse_args_iff p = (
    λ e.
        let (dir, here, parsed) = args_ok p e in
        let (vm, stored, plain, told, found) = body_ok dir p parsed in
        (dir, vm, here, stored, plain, told, (find_input_file_iff dir vm.input p).0 found),
    λ h.
        let (dir, vm, here, stored, plain, told, chosen) = h in
        args_of dir p here
          (body_of dir p vm stored plain told ((find_input_file_iff dir vm.input p).1 chosen)),
  )
