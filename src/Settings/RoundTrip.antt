-- ===== src/Settings/RoundTrip.antt =====
-- The whole input file written as JSON and read again.
use cmake_sample.Common.{
  ◌≡◌, ◌≢◌, ◌⊎◌, inl, inr, ◌∙◌, refl, none, List, [], ◌∷◌, Result, ok, err, ◌>>=◌, All,
}
use cmake_sample.Settings.{
  Json, ClientSettings, Communications, InputFile, to_server_settings, from_server_settings,
  to_client_settings, from_client_settings, to_communications, from_communications, to_input_file,
  from_input_file,
}
use cmake_sample.Settings.Laws.{IsJson, traverse, member-assign_self, member-assign_ne}
use cmake_sample.Settings.Leaves.{commons_round_trip, server_round_trip, client_round_trip, IsFull}

-- Every optional text is there.
abbrev pub IsComplete : Communications → Type 0
IsComplete c = (c.server.service ≢ none) × All IsFull c.clients

-- A value that is read back, or is not complete and cannot be.
abbrev pub Survives {ℓ} : {E A : Type 0} → Type ℓ → Result E A → A → Type ℓ
Survives {E} P r a = (P × (r ≡ ok a)) ⊎ ((¬ P) × (e : E) × (r ≡ err e))

module _ (json : Json) (laws : IsJson json) where
  clients_round_trip :
      (cs : List ClientSettings)
      → Survives
          (All IsFull cs)
          (traverse (λ c. to_client_settings json (from_client_settings json c)) cs)
          cs
  clients_round_trip [] = inl (tt, refl)
  clients_round_trip (c ∷ cs) = elim (client_round_trip json laws c) [
    | inr (bad, e, h) ↦ inr ((λ f. bad f.0), e, rw h)
    | inl (full, h) ↦ elim (clients_round_trip cs) [
      | inr (bad, e, k) ↦ inr ((λ f. bad f.1), e, rw (h, k))
      | inl (rest, k) ↦ inl ((full, rest), rw (h, k))
    ]
  ]

  communications_members :
      (c : Communications)
      → to_communications json (from_communications json c) ≡ (
          to_server_settings json (from_server_settings json c.server) >>= λ server.
          traverse (λ d. to_client_settings json (from_client_settings json d)) c.clients
          >>= λ clients. ok (record { server = server; clients = clients }))
  unfolding to_communications from_communications
  communications_members c = simp (
    laws.object_of_object,
    member-assign_self json laws,
    member-assign_ne json laws,
    laws.vector_of_vector,
  )

  communications_round_trip :
      (c : Communications)
      → Survives (IsComplete c) (to_communications json (from_communications json c)) c
  communications_round_trip c = elim (server_round_trip json laws c.server) [
    | inr (bad, e, h) ↦ inr ((λ f. f.0 bad), e, communications_members c ∙ rw h)
    | inl (named, h) ↦ elim (clients_round_trip c.clients) [
      | inr (bad, e, k) ↦ inr ((λ f. bad f.1), e, communications_members c ∙ rw (h, k))
      | inl (full, k) ↦ inl ((named, full), communications_members c ∙ rw (h, k))
    ]
  ]

  input_file_members :
      (f : InputFile)
      → to_input_file json (from_input_file json f) ≡ (
          to_communications json (from_communications json f.communications) >>= λ communications.
          ok (record f { communications = communications }))
  unfolding to_input_file from_input_file
  input_file_members f = simp (
    laws.object_of_object,
    member-assign_self json laws,
    member-assign_ne json laws,
    commons_round_trip json laws,
  )

  -- An input file in which the server names its service, and every client its host and its service,
  -- is the same after a round trip through JSON. Any other is written, but reading it fails.
  pub input_file_round_trip :
      (f : InputFile)
      → (IsComplete f.communications × (to_input_file json (from_input_file json f) ≡ ok f))
        ⊎ ((¬ IsComplete f.communications)
            × (e : json.Error) × (to_input_file json (from_input_file json f) ≡ err e))
  input_file_round_trip f = elim (communications_round_trip f.communications) [
    | inl (full, h) ↦ inl (full, input_file_members f ∙ rw h)
    | inr (bad, e, h) ↦ inr (bad, e, input_file_members f ∙ rw h)
  ]

  pub from_input_file-object :
      (f : InputFile) → (obj : json.Object) × (from_input_file json f ≡ json.from_object obj)
  unfolding from_input_file
  from_input_file-object f = (_, refl)
