-- ===== src/Settings/Reading.antt =====
-- Reading settings from any JSON value: keys that are missing, keys that nobody asks for, and values
-- that are no objects.
use cmake_sample.Common.{◌≡◌, false, none, List, [], ◌∷◌, String, ok, All}
use cmake_sample.Settings.{
  Json, no_commons, no_server, no_communications, no_input, to_commons, to_server_settings,
  to_client_settings, to_communications, to_input_file,
}
use cmake_sample.Settings.Laws.{IsJson, member-missing, member-assign_ne}
use text.Mathlib.Text.{◌==◌ as str_eq}

-- The object has none of the keys.
abbrev pub Lacks : (json : Json) → json.Object → List String → Type 0
Lacks json o = All (λ k. json.if_contains o k ≡ none)

-- The key is none of the list.
abbrev pub IsOther : String → List String → Type 0
IsOther k = All (λ l. str_eq k l ≡ false)

module _ (json : Json) (laws : IsJson json) (o : json.Object) where
  -- From an object without its keys each structure is read as its default; the host and the service
  -- are then absent, not empty texts.
  pub missing_keys_default :
      (Lacks json o ("appName" ∷ "version" ∷ [])
        → to_commons json (json.from_object o) ≡ ok no_commons)
      × (Lacks json o ("enable" ∷ "name" ∷ "service" ∷ [])
          → to_server_settings json (json.from_object o) ≡ ok no_server)
      × (Lacks json o ("enable" ∷ "name" ∷ "host" ∷ "service" ∷ [])
          → to_client_settings json (json.from_object o)
            ≡ ok (record { enable = false; name = ""; host = none; service = none }))
      × (Lacks json o ("server" ∷ "clients" ∷ [])
          → to_communications json (json.from_object o) ≡ ok no_communications)
      × (Lacks json o ("commons" ∷ "communications" ∷ [])
          → to_input_file json (json.from_object o) ≡ ok no_input)
  unfolding to_commons to_server_settings to_client_settings to_communications to_input_file
  missing_keys_default = (
    λ h. simp (laws.object_of_object, member-missing json laws, h.0, h.1.0),
    λ h. simp (laws.object_of_object, member-missing json laws, h.0, h.1.0, h.1.1.0),
    λ h. simp (laws.object_of_object, member-missing json laws, h.0, h.1.0, h.1.1.0, h.1.1.1.0),
    λ h. simp (laws.object_of_object, member-missing json laws, h.0, h.1.0),
    λ h. simp (laws.object_of_object, member-missing json laws, h.0, h.1.0),
  )

  -- A client is read from the keys `enable`, `name`, `host` and `service` alone: any other key, such
  -- as `address`, may be set to any value without a change.
  pub client_ignores_other_keys :
      (k : String) (v : json.Value)
      → IsOther k ("enable" ∷ "name" ∷ "host" ∷ "service" ∷ [])
      → to_client_settings json (json.from_object (json.assign o k v))
        ≡ to_client_settings json (json.from_object o)
  unfolding to_client_settings
  client_ignores_other_keys k v h =
      simp (laws.object_of_object, member-assign_ne json laws, h.0, h.1.0, h.1.1.0, h.1.1.1.0)
