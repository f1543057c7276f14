-- ===== src/Settings.antt =====
-- libs/core/include/core/settings and libs/core/src/settings: the structures that an input file is
-- read into, and their conversions from and to JSON values.
-- Boost.JSON is a parameter: its types and calls are the record `Json`, what the conversions rely on
-- is `IsJson` in Settings/Laws.
pub mod Laws
pub mod Leaves
pub mod RoundTrip
pub mod Reading
pub mod Says
pub mod Schema
pub mod Sample
pub mod Examples
use cmake_sample.Common.{
  ◌≡◌, Bool, true, false, Option, none, some, List, [], ◌∷◌, map, String, Result, ok, err, ◌>>=◌,
  if◌then◌else◌,
}
use text.Mathlib.Text.{◌==◌ as str_eq}

-- What the code calls of Boost.JSON. `to_…` is `value_to<…>`, `from_…` is `value_from`, `object_at`
-- is `object::at` and `assign o k v` is `o[k] = v`. A call that throws returns an `Error`.
pub record Json : Type 1 where
  pub Value : Type 0
  pub Object : Type 0
  pub Error : Type 0
  pub as_object : Value → Result Error Object
  pub if_contains : Object → String → Option Value
  pub object_at : Object → String → Result Error Value
  pub to_bool : Value → Result Error Bool
  pub to_string : Value → Result Error String
  pub to_vector : {A : Type 0} → (Value → Result Error A) → Value → Result Error (List A)
  pub empty_object : Object
  pub assign : Object → String → Value → Object
  pub from_object : Object → Value
  pub from_bool : Bool → Value
  pub from_string : String → Value
  pub from_optional : Option String → Value
  pub from_vector : {A : Type 0} → (A → Value) → List A → Value

pub record Commons : Type 0 where
  pub app_name : String
  pub version : String

pub record ServerSettings : Type 0 where
  pub enable : Bool
  pub name : String
  pub service : Option String

pub record ClientSettings : Type 0 where
  pub enable : Bool
  pub name : String
  pub host : Option String
  pub service : Option String

pub record Communications : Type 0 where
  pub server : ServerSettings
  pub clients : List ClientSettings

pub record InputFile : Type 0 where
  pub commons : Commons
  pub communications : Communications

-- Default construction.
abbrev pub no_commons : Commons
no_commons = record { app_name = ""; version = "" }

abbrev pub no_server : ServerSettings
no_server = record { enable = false; name = ""; service = none }

abbrev pub no_communications : Communications
no_communications = record { server = no_server; clients = [] }

abbrev pub no_input : InputFile
no_input = record { commons = no_commons; communications = no_communications }

-- `i_input_data`, the base class of the structures.
pub record InputData (P A : Type 0) : Type 0 where
  pub resolve_relative_path : P → A → A

abbrev pub resolve_relative_path : {P A : Type 0} ⦃i : InputData P A⦄ → P → A → A
resolve_relative_path ⦃i⦄ = i.resolve_relative_path

-- Nothing in the settings is a path, so `resolve_relative_path` has nothing to do at the leaves.
module _ {P : Type 0} where
  abbrev pub resolve_commons : P → Commons → Commons
  resolve_commons path c = c

  abbrev pub resolve_server : P → ServerSettings → ServerSettings
  resolve_server path s = s

  abbrev pub resolve_client : P → ClientSettings → ClientSettings
  resolve_client path c = c

  instance abbrev pub commons_data : InputData P Commons
  commons_data = record { resolve_relative_path = resolve_commons }

  instance abbrev pub server_data : InputData P ServerSettings
  server_data = record { resolve_relative_path = resolve_server }

  instance abbrev pub client_data : InputData P ClientSettings
  client_data = record { resolve_relative_path = resolve_client }

  abbrev pub resolve_communications : P → Communications → Communications
  resolve_communications path c = record {
    server = resolve_relative_path path c.server;
    clients = map (resolve_relative_path path) c.clients;
  }

  instance abbrev pub communications_data : InputData P Communications
  communications_data = record { resolve_relative_path = resolve_communications }

  abbrev pub resolve_input_file : P → InputFile → InputFile
  resolve_input_file path f = record {
    commons = resolve_relative_path path f.commons;
    communications = resolve_relative_path path f.communications;
  }

  instance abbrev pub input_file_data : InputData P InputFile
  input_file_data = record { resolve_relative_path = resolve_input_file }

module _ (json : Json) where
  open json use {
    Value, Object, Error, as_object, if_contains, object_at, to_bool, to_string, to_vector,
    empty_object, assign, from_object, from_bool, from_string, from_optional, from_vector,
  }

  -- `obj.if_contains(key) ? value_to<A>(obj.at(key)) : default`
  pub member : {A : Type 0} → (Value → Result Error A) → A → Object → String → Result Error A
  member convert default o key = elim (if_contains o key) [
    | none ↦ ok default
    | some _ ↦ object_at o key >>= convert
  ]

  -- `value_to<std::string>`, put into a `std::optional`.
  pub to_optional : Value → Result Error (Option String)
  to_optional v = to_string v >>= λ s. ok (some s)

  pub to_commons : Value → Result Error Commons
  to_commons jv = do
    obj ← as_object jv
    app_name ← member to_string "" obj "appName"
    version ← member to_string "" obj "version"
    ok (record { app_name = app_name; version = version })

  pub from_commons : Commons → Value
  from_commons c =
      let named =
        if str_eq c.app_name ""
        then empty_object
        else assign empty_object "appName" (from_string c.app_name) in
      from_object
        (if str_eq c.version "" then named else assign named "version" (from_string c.version))

  pub to_server_settings : Value → Result Error ServerSettings
  unfolding to_optional
  to_server_settings jv = do
    obj ← as_object jv
    enable ← member to_bool false obj "enable"
    name ← member to_string "" obj "name"
    service ← member to_optional none obj "service"
    ok (record { enable = enable; name = name; service = service })

  pub from_server_settings : ServerSettings → Value
  from_server_settings s =
      let with_enable = assign empty_object "enable" (from_bool s.enable) in
      let with_name = assign with_enable "name" (from_string s.name) in
      from_object (assign with_name "service" (from_optional s.service))

  pub to_client_settings : Value → Result Error ClientSettings
  unfolding to_optional
  to_client_settings jv = do
    obj ← as_object jv
    enable ← member to_bool false obj "enable"
    name ← member to_string "" obj "name"
    host ← member to_optional none obj "host"
    service ← member to_optional none obj "service"
    ok (record { enable = enable; name = name; host = host; service = service })

  pub from_client_settings : ClientSettings → Value
  from_client_settings c =
      let with_enable = assign empty_object "enable" (from_bool c.enable) in
      let with_name = assign with_enable "name" (from_string c.name) in
      let with_host = assign with_name "host" (from_optional c.host) in
      from_object (assign with_host "service" (from_optional c.service))

  pub to_communications : Value → Result Error Communications
  to_communications jv = do
    obj ← as_object jv
    server ← member to_server_settings no_server obj "server"
    clients ← member (to_vector to_client_settings) [] obj "clients"
    ok (record { server = server; clients = clients })

  pub from_communications : Communications → Value
  from_communications c =
      let with_server = assign empty_object "server" (from_server_settings c.server) in
      from_object (assign with_server "clients" (from_vector from_client_settings c.clients))

  pub to_input_file : Value → Result Error InputFile
  to_input_file jv = do
    obj ← as_object jv
    commons ← member to_commons no_commons obj "commons"
    communications ← member to_communications no_communications obj "communications"
    ok (record { commons = commons; communications = communications })

  pub from_input_file : InputFile → Value
  from_input_file f =
      let with_commons = assign empty_object "commons" (from_commons f.commons) in
      from_object (assign with_commons "communications" (from_communications f.communications))
