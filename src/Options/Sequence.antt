-- ===== src/Options/Sequence.antt =====
-- Several calls of `read_input_file` on the singleton, one after the other.
use cmake_sample.Common.{ℕ, ◌≡◌, ◌⊎◌, inl, inr, refl, ap, ◌∙◌, List, [], ◌∷◌, ◌++◌, All, Result, ok}
use cmake_sample.Settings.{Json, InputFile}
use cmake_sample.Options.{Files, MyError, Options, read_input_file}
use cmake_sample.Options.Read.{Loads, read_input_file_outcome}

module _ (json : Json) (files : Files json) where
  -- The caller goes on also where a call throws.
  unfoldable pub read_all : List files.FilePath → Options json files → Options json files
  read_all [] o = o
  read_all (path ∷ rest) o = read_all rest (read_input_file json files path o).0

  abbrev pub Reads : files.FilePath → InputFile → Type 0
  Reads path f = (text : List ℕ) × (files.open_file path ≡ ok text) × Loads json files path text f

  abbrev pub IsUnreadable : files.FilePath → Type 0
  IsUnreadable path = (f : InputFile) → ¬ Reads path f

  -- The settings are those of the last of these files that can be read, or none of them can be read.
  abbrev pub AreFrom : List files.FilePath → InputFile → InputFile → Type 0
  AreFrom paths old new =
      ((earlier : List files.FilePath) × (path : files.FilePath) × (later : List files.FilePath)
        × (paths ≡ earlier ++ (path ∷ later))
        × Reads path new
        × All IsUnreadable later)
      ⊎ (All IsUnreadable paths × (new ≡ old))

  AfterCall :
      files.FilePath → Options json files → Options json files × Result MyError (List ℕ) → Type 0
  AfterCall path o out =
      (out.0.input_file_path ≡ path)
      × (Reads path out.0.input_file ⊎ (IsUnreadable path × (out.0.input_file ≡ o.input_file)))

  one_call :
      (path : files.FilePath) (o : Options json files)
      → AfterCall path o (read_input_file json files path o)
  unfolding AfterCall
  one_call path o = elim (read_input_file_outcome json files path o) [
    | inl (text, f, opened, l, done) ↦ rw done (refl, inl (text, opened, l))
    | inr (e, bad, done, _) ↦ rw done (refl, inr ((λ f r. bad r.0 f r.1 r.2), refl))
  ]

  last_read :
      (paths : List files.FilePath) (o : Options json files)
      → AreFrom paths o.input_file (read_all paths o).input_file
  unfolding read_all AfterCall
  last_read [] o = inr (tt, refl)
  last_read (path ∷ rest) o =
      let (_, now) = one_call path o in
      elim (last_read rest (read_input_file json files path o).0) [
        | inl (earlier, p, later, split, reads, bad) ↦
            inl (path ∷ earlier, p, later, ap (◌∷◌ path) split, reads, bad)
        | inr (bad, kept) ↦ elim now [
          | inl reads ↦ inl ([], path, rest, refl, (rw kept reads), bad)
          | inr (unread, same) ↦ inr ((unread, bad), kept ∙ same)
        ]
      ]

  last_path :
      (paths : List files.FilePath) (path : files.FilePath) (o : Options json files)
      → (read_all (paths ++ (path ∷ [])) o).input_file_path ≡ path
  unfolding read_all AfterCall
  last_path [] path o = (one_call path o).0
  last_path (p ∷ rest) path o = last_path rest path (read_input_file json files p o).0

  -- Whatever files were read one after the other, some of them in vain: the settings are those of
  -- the last file that can be read, or, where there is none, those from before; the path is that of
  -- the last call, whether or not its file can be read.
  pub settings_of_last_read :
      (paths : List files.FilePath) (path : files.FilePath) (o : Options json files)
      → let o' = read_all (paths ++ (path ∷ [])) o in
        AreFrom (paths ++ (path ∷ [])) o.input_file o'.input_file × (o'.input_file_path ≡ path)
  settings_of_last_read paths path o = (last_read (paths ++ (path ∷ [])) o, last_path paths path o)
