-- ===== src/Settings/Leaves.antt =====
-- The structures without a nested one: `commons`, `server_settings` and `client_settings`.
use cmake_sample.Common.{
  ◌≡◌, ◌≢◌, ◌⊎◌, inl, inr, ◌∙◌, none, some, String, ok, err, ◌>>=◌, Bool-cases, Option-cases,
}
use cmake_sample.Settings.{
  Json, Commons, ServerSettings, ClientSettings, to_optional, to_commons, from_commons,
  to_server_settings, from_server_settings, to_client_settings, from_client_settings,
}
use cmake_sample.Settings.Laws.{IsJson, member-assign_self, member-assign_ne, member-empty}
use text.Mathlib.Text.{◌==◌ as str_eq}
use text.Mathlib.TextEquality.{eq_iff}

-- A client that names its host and its service.
abbrev pub IsFull : ClientSettings → Type 0
IsFull c = (c.host ≢ none) × (c.service ≢ none)

module _ (json : Json) (laws : IsJson json) where
  -- `commons` survives a round trip through JSON, though empty texts are left out of it.
  pub commons_round_trip : (c : Commons) → to_commons json (from_commons json c) ≡ ok c
  unfolding to_commons from_commons
  commons_round_trip c = elim (Bool-cases (str_eq c.app_name "")) [
    | inl a ↦ elim (Bool-cases (str_eq c.version "")) [
      | inl v ↦
          simp (a, v, laws.object_of_object, member-empty json laws)
            (cc ((eq_iff c.app_name "").0 a, (eq_iff c.version "").0 v))
      | inr v ↦
          simp
            (
              a,
              v,
              laws.object_of_object,
              member-assign_self json laws,
              member-assign_ne json laws,
              member-empty json laws,
              laws.string_of_string,
            )
            (cc ((eq_iff c.app_name "").0 a))
    ]
    | inr a ↦ elim (Bool-cases (str_eq c.version "")) [
      | inl v ↦
          simp
            (
              a,
              v,
              laws.object_of_object,
              member-assign_self json laws,
              member-assign_ne json laws,
              member-empty json laws,
              laws.string_of_string,
            )
            (cc ((eq_iff c.version "").0 v))
      | inr v ↦ simp (
        a,
        v,
        laws.object_of_object,
        member-assign_self json laws,
        member-assign_ne json laws,
        laws.string_of_string,
      )
    ]
  ]

  server_members :
      (s : ServerSettings)
      → to_server_settings json (from_server_settings json s) ≡ (
          to_optional json (json.from_optional s.service) >>= λ service.
          ok (record s { service = service }))
  unfolding to_server_settings from_server_settings to_optional
  server_members s = simp (
    laws.object_of_object,
    member-assign_self json laws,
    member-assign_ne json laws,
    laws.bool_of_bool,
    laws.string_of_string,
  )

  client_members :
      (c : ClientSettings)
      → to_client_settings json (from_client_settings json c) ≡ (
          to_optional json (json.from_optional c.host) >>= λ host.
          to_optional json (json.from_optional c.service) >>= λ service.
          ok (record c { host = host; service = service }))
  unfolding to_client_settings from_client_settings to_optional
  client_members c = simp (
    laws.object_of_object,
    member-assign_self json laws,
    member-assign_ne json laws,
    laws.bool_of_bool,
    laws.string_of_string,
  )

  optional_read : (s : String) → to_optional json (json.from_optional (some s)) ≡ ok (some s)
  unfolding to_optional
  optional_read s = simp (laws.optional_some, laws.string_of_string)

  null_refused : (e : json.Error) × (to_optional json (json.from_optional none) ≡ err e)
  unfolding to_optional
  null_refused = let (e, h) = laws.null_not_string in (e, rw h)

  -- A server that names its service survives a round trip. One without a service is written with a
  -- null there, and reading that fails.
  pub server_round_trip :
      (s : ServerSettings)
      → ((s.service ≢ none) × (to_server_settings json (from_server_settings json s) ≡ ok s))
        ⊎ ((s.service ≡ none)
            × (e : json.Error) × (to_server_settings json (from_server_settings json s) ≡ err e))
  server_round_trip s = elim (Option-cases s.service) [
    | inl absent ↦
        let (e, refused) = null_refused in
        inr (absent, e, server_members s ∙ simp (absent, refused))
    | inr (t, named) ↦ inl ((λ e. cc), server_members s ∙ simp (named, optional_read) (cc named))
  ]

  -- A client that names its host and its service survives a round trip. Any other is written with a
  -- null, and reading that fails.
  pub client_round_trip :
      (c : ClientSettings)
      → (IsFull c × (to_client_settings json (from_client_settings json c) ≡ ok c))
        ⊎ ((¬ IsFull c)
            × (e : json.Error) × (to_client_settings json (from_client_settings json c) ≡ err e))
  client_round_trip c =
      let (e, refused) = null_refused in
      elim (Option-cases c.host) [
        | inl no_host ↦ inr ((λ f. f.0 no_host), e, client_members c ∙ simp (no_host, refused))
        | inr (h, host) ↦ elim (Option-cases c.service) [
          | inl no_service ↦ inr (
            (λ f. f.1 no_service),
            e,
            client_members c ∙ simp (host, no_service, optional_read, refused),
          )
          | inr (t, service) ↦ inl (
            ((λ x. cc), (λ x. cc)),
            client_members c ∙ simp (host, service, optional_read) (cc (host, service)),
          )
        ]
      ]
