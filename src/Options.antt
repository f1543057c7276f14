-- ===== src/Options.antt =====
-- libs/core/include/core/settings/options.hpp and libs/core/src/settings/options.cpp: the class
-- `options`, which reads an input file and keeps what it read.
-- Files, Boost.Filesystem and the parser of Boost.JSON are a parameter, the record `Files`.
pub mod Laws
pub mod Read
pub mod Sequence
pub mod Sample
pub mod Examples
use cmake_sample.Common.{
  bytes_eq, ℕ, ◌+◌, ◌≡◌, Bool, true, false, ◌&&◌, Option, none, some, List, [], ◌∷◌, map, String,
  Result, ok, err, leb, ◌==◌, if◌then◌else◌,
}
use cmake_sample.Settings.{
  Json, InputFile, to_input_file, from_input_file, resolve_relative_path, input_file_data,
}

-- `open_file` opens a file and reads all its bytes; it fails with the `what()` of the `system_error`
-- that the code throws. `parse c t` is `json::parse` with `allow_comments` c and
-- `allow_trailing_commas` t. `what` is the text of an exception of Boost.JSON that is a
-- `std::exception`, and `none` for any other.
pub record Files (json : Json) : Type 1 where
  pub FilePath : Type 0
  pub path_string : FilePath → String
  pub extension : FilePath → List ℕ
  pub parent_path : FilePath → FilePath
  pub open_file : FilePath → Result String (List ℕ)
  pub parse : Bool → Bool → List ℕ → Result json.Error json.Value
  pub serialize : json.Value → List ℕ
  pub what : json.Error → Option String

-- `std::tolower` of the C locale, which the program keeps.
pub to_lower : ℕ → ℕ
to_lower c = if leb b'A' c && leb c b'Z' then c + 32 else c

pub to_lower_copy : List ℕ → List ℕ
to_lower_copy text = map to_lower text

abbrev pub jsonc : List ℕ
jsonc = b'.' ∷ b'j' ∷ b's' ∷ b'o' ∷ b'n' ∷ b'c' ∷ []

pub is_jsonc : List ℕ → Bool
unfolding to_lower_copy bytes_eq to_lower
is_jsonc extension = bytes_eq (to_lower_copy extension) jsonc

abbrev pub bom : List ℕ
bom = 0xEF ∷ 0xBB ∷ 0xBF ∷ []

-- The UTF-8 byte order mark goes, if the text begins with it.
pub strip_bom : List ℕ → List ℕ
strip_bom (a ∷ b ∷ c ∷ rest) =
    if a == 0xEF && b == 0xBB && c == 0xBF then rest else a ∷ b ∷ c ∷ rest
strip_bom text = text

-- `my_error` with its `errinfo_message` and its `errinfo_path`.
pub record MyError : Type 0 where
  pub message : String
  pub path : String

module _ (json : Json) (files : Files json) where
  open files use {FilePath, path_string, extension, parent_path, open_file, parse, serialize, what}

  -- The members of the singleton.
  pub record Options : Type 0 where
    pub input_file_path : FilePath
    pub input_file : InputFile

  -- `e.what()` in the handler of `std::exception`, and the text of the handler of `...`.
  abbrev pub explain : Option String → String
  explain (some text) = text
  explain none = "不明な例外が発生しました"

  pub is_jsonc_path : FilePath → Bool
  unfolding is_jsonc
  is_jsonc_path path = is_jsonc (extension path)

  -- From the bytes of the file to the settings: the byte order mark, the parser, the conversion and
  -- the paths.
  pub load_text : FilePath → List ℕ → Result json.Error InputFile
  unfolding is_jsonc_path strip_bom
  load_text path text = elim (parse (is_jsonc_path path) true (strip_bom text)) [
    | err e ↦ err e
    | ok jv ↦ elim (to_input_file json jv) [
      | err e ↦ err e
      | ok f ↦ ok (resolve_relative_path (parent_path path) f)
    ]
  ]

  -- What the handlers throw.
  abbrev pub wrapped : FilePath → String → MyError
  wrapped path text = record { message = text; path = path_string path }

  -- `read_input_file`: the members afterwards, and the line of the debug log or the exception.
  pub read_input_file : FilePath → Options → Options × Result MyError (List ℕ)
  unfolding load_text
  read_input_file path o =
      let opened = record o { input_file_path = path } in
      elim (open_file path) [
        | err text ↦ (opened, err (wrapped path text))
        | ok text ↦ elim (load_text path text) [
          | err e ↦ (opened, err (wrapped path (explain (what e))))
          | ok f ↦ (record opened { input_file = f }, ok (serialize (from_input_file json f)))
        ]
      ]
