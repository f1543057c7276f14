-- ===== src/Options/Read.antt =====
-- `read_input_file` on every path through it.
use cmake_sample.Common.{
  ℕ, ◌≡◌, ◌⊎◌, inl, inr, refl, ◌∙◌, true, List, ◌++◌, ok, err, arith, Result-cases,
}
use cmake_sample.Settings.{Json, InputFile, to_input_file, from_input_file}
use cmake_sample.Settings.Laws.{IsJson}
use cmake_sample.Settings.RoundTrip.{IsComplete, input_file_round_trip, from_input_file-object}
use cmake_sample.Options.{
  Files, MyError, Options, is_jsonc_path, strip_bom, load_text, wrapped, explain, read_input_file,
  bom,
}
use cmake_sample.Options.Laws.{IsFiles, resolve_relative_path_id, strip_bom-append, strip_bom_other}

module _ (json : Json) (files : Files json) where
  -- The text of a file is parsed and converted: comments are allowed for a `.jsonc` file only,
  -- trailing commas always, and a byte order mark is skipped.
  abbrev pub Loads : files.FilePath → List ℕ → InputFile → Type 0
  Loads path text f =
      (v : json.Value) × (files.parse (is_jsonc_path json files path) true (strip_bom text) ≡ ok v)
      × (to_input_file json v ≡ ok f)

  load_text_outcome :
      (path : files.FilePath) (text : List ℕ)
      → ((f : InputFile) × Loads path text f × (load_text json files path text ≡ ok f))
        ⊎ ((e : json.Error) × (load_text json files path text ≡ err e)
            × ((f : InputFile) → ¬ Loads path text f))
  unfolding load_text
  load_text_outcome path text =
      elim (Result-cases (files.parse (is_jsonc_path json files path) true (strip_bom text))) [
        | inr (e, h) ↦ inr (e, rw (h, load_text), λ f l. let clash = l.1 in cc h)
        | inl (v, h) ↦ elim (Result-cases (to_input_file json v)) [
          | inr (e, k) ↦ inr (
            e,
            rw (h, load_text) (rw k),
            λ f l.
                let same : l.0 ≡ v = cc (l.1, h) in
                let read : to_input_file json v ≡ ok f = rw same at (l.2) in cc k,
          )
          | inl (f, k) ↦ inl (f, (v, h, k), rw (h, load_text) (rw (k, resolve_relative_path_id)))
        ]
      ]

  -- One call of `read_input_file` does one of two things. Either the file opens and its text loads:
  -- then the path and the settings are stored and the settings are logged as JSON. Or one of these
  -- fails: then `my_error` with the path's text is thrown, and the settings are as they were, but
  -- the path of the file that failed is stored.
  pub read_input_file_outcome :
      (path : files.FilePath) (o : Options json files)
      → ((text : List ℕ) × (f : InputFile) × (files.open_file path ≡ ok text)
          × Loads path text f
          × (read_input_file json files path o ≡ (
            record { input_file_path = path; input_file = f },
            ok (files.serialize (from_input_file json f)),
          )))
        ⊎ ((e : MyError) × ((text : List ℕ) (f : InputFile)
              → files.open_file path ≡ ok text
              → ¬ Loads path text f)
            × (read_input_file json files path o
                ≡ (record { input_file_path = path; input_file = o.input_file }, err e))
            × (e.path ≡ files.path_string path))
  unfolding read_input_file
  read_input_file_outcome path o = elim (Result-cases (files.open_file path)) [
    | inr (e, h) ↦
        inr (wrapped json files path e, (λ text f opened l. cc h), rw (h, read_input_file), refl)
    | inl (text, h) ↦ elim (load_text_outcome path text) [
      | inl (f, l, k) ↦ inl (text, f, h, l, rw (h, read_input_file) (rw k))
      | inr (e, k, bad) ↦ inr (
        wrapped json files path (explain json files (files.what e)),
        (λ other f opened l. bad f (let same : other ≡ text = cc (opened, h) in rw same at l)),
        rw (h, read_input_file) (rw k),
        refl,
      )
    ]
  ]

  pub read-Loads :
      (path : files.FilePath) (o : Options json files) (text : List ℕ) (f : InputFile)
      → files.open_file path ≡ ok text
      → Loads path text f
      → read_input_file json files path o ≡ (
        record { input_file_path = path; input_file = f },
        ok (files.serialize (from_input_file json f)),
      )
  read-Loads path o text f opened l = elim (read_input_file_outcome path o) [
    | inr (e, bad, _, _) ↦ absurd (bad text f opened l)
    | inl (text', f', opened', l', done) ↦
        let same : text' ≡ text = cc (opened, opened') in
        let again : Loads path text f' = rw same at l' in
        let value : again.0 ≡ l.0 = cc (again.1, l.1) in
        let read : to_input_file json l.0 ≡ ok f' = rw value at (again.2) in
        let same_file : f' ≡ f = cc (l.2) in done ∙ rw same_file
  ]

  module _ (laws : IsJson json) (io : IsFiles json files) where
    -- The JSON of an input file begins with a brace, so no byte of it is taken for a mark.
    strip_bom-saved :
        (f : InputFile)
        → strip_bom (files.serialize (from_input_file json f))
          ≡ files.serialize (from_input_file json f)
    strip_bom-saved f =
        let (obj, e) = from_input_file-object json laws f in
        let (rest, h) = io.serialize_object obj in
        rw (e, h) (strip_bom_other b'{' rest (λ clash. absurd (omega arith)))

    saved-Loads :
        (path : files.FilePath) (text : List ℕ) (f : InputFile)
        → IsComplete f.communications
        → strip_bom text ≡ files.serialize (from_input_file json f)
        → Loads path text f
    saved-Loads path text f full e = elim (input_file_round_trip json laws f) [
      | inl (_, read) ↦ (
        from_input_file json f,
        rw e (io.parse_serialize (is_jsonc_path json files path) true f),
        read,
      )
      | inr (bad, _, _) ↦ absurd (bad full)
    ]

    -- Settings that the file holds as JSON text, with or without a byte order mark in front, are
    -- read back as they were, whatever the extension, if the server names its service and every
    -- client its host and its service.
    pub saved_settings_read_back :
        (path : files.FilePath) (o : Options json files) (f : InputFile)
        → IsComplete f.communications
        → (files.open_file path ≡ ok (files.serialize (from_input_file json f)))
          ⊎ (files.open_file path ≡ ok (bom ++ files.serialize (from_input_file json f)))
        → read_input_file json files path o ≡ (
          record { input_file_path = path; input_file = f },
          ok (files.serialize (from_input_file json f)),
        )
    saved_settings_read_back path o f full (inl opened) =
        read-Loads path o _ f opened (saved-Loads path _ f full (strip_bom-saved f))
    saved_settings_read_back path o f full (inr opened) =
        read-Loads path o _ f opened (saved-Loads path _ f full (strip_bom-append _))
