-- ===== src/Settings/Says.antt =====
-- What JSON values say: a description of the conversions that does not run them.
use cmake_sample.Common.{
  ◌≡◌, ◌⊎◌, ◌↔◌, inl, inr, sym, ap, ◌∙◌, Bool, false, Option, none, some, List, [], ◌∷◌, String,
  Result, ok, Option-cases, Result-cases, bind_ok, arith,
}
use cmake_sample.Settings.{
  Json, Commons, ServerSettings, ClientSettings, Communications, InputFile, no_commons, no_server,
  no_communications, member, to_commons, to_optional,
}
use cmake_sample.Settings.Laws.{IsJson, member-found, member-missing}

module _ (json : Json) where
  open json use {Value, Object, Error, as_object, if_contains, to_bool, to_string, to_vector}

  -- The member is missing and `x` is the default, or its value is said to be `x`.
  abbrev pub MemberSays : {A : Type 0} → (Value → A → Type 0) → A → Object → String → A → Type 0
  MemberSays says default o key x =
      ((if_contains o key ≡ none) × (x ≡ default))
      ⊎ ((v : Value) × (if_contains o key ≡ some v) × says v x)

  abbrev pub SaysBool : Value → Bool → Type 0
  SaysBool v b = to_bool v ≡ ok b

  abbrev pub SaysString : Value → String → Type 0
  SaysString v s = to_string v ≡ ok s

  -- A member that is there is a string: null is not accepted.
  abbrev pub SaysOptional : Value → Option String → Type 0
  SaysOptional v none = ⊥
  SaysOptional v (some s) = to_string v ≡ ok s

  abbrev pub SaysCommons : Value → Commons → Type 0
  SaysCommons v c =
      (o : Object) × (as_object v ≡ ok o)
      × MemberSays SaysString "" o "appName" c.app_name
      × MemberSays SaysString "" o "version" c.version

  abbrev pub SaysServer : Value → ServerSettings → Type 0
  SaysServer v s =
      (o : Object) × (as_object v ≡ ok o)
      × MemberSays SaysBool false o "enable" s.enable
      × MemberSays SaysString "" o "name" s.name
      × MemberSays SaysOptional none o "service" s.service

  abbrev pub SaysClient : Value → ClientSettings → Type 0
  SaysClient v c =
      (o : Object) × (as_object v ≡ ok o)
      × MemberSays SaysBool false o "enable" c.enable
      × MemberSays SaysString "" o "name" c.name
      × MemberSays SaysOptional none o "host" c.host
      × MemberSays SaysOptional none o "service" c.service

  abbrev pub SaysEach : List Value → List ClientSettings → Type 0
  SaysEach [] [] = Unit
  SaysEach (v ∷ vs) (c ∷ cs) = SaysClient v c × SaysEach vs cs
  SaysEach _ _ = ⊥

  -- An array, of which each element says one client.
  abbrev pub SaysClients : Value → List ClientSettings → Type 0
  SaysClients v cs = (vs : List Value) × (to_vector ok v ≡ ok vs) × SaysEach vs cs

  abbrev pub SaysCommunications : Value → Communications → Type 0
  SaysCommunications v c =
      (o : Object) × (as_object v ≡ ok o)
      × MemberSays SaysServer no_server o "server" c.server
      × MemberSays SaysClients [] o "clients" c.clients

  abbrev pub SaysInputFile : Value → InputFile → Type 0
  SaysInputFile v f =
      (o : Object) × (as_object v ≡ ok o)
      × MemberSays SaysCommons no_commons o "commons" f.commons
      × MemberSays SaysCommunications no_communications o "communications" f.communications

  module _ (laws : IsJson json) where
    pub member_iff :
        {A : Type 0} (convert : Value → Result Error A) (says : Value → A → Type 0)
        (agrees : (v : Value) (x : A) → (convert v ≡ ok x) ↔ says v x) (default : A) (o : Object)
        (key : String) (x : A)
        → (member json convert default o key ≡ ok x) ↔ MemberSays says default o key x
    member_iff convert says agrees default o key x = elim (Option-cases (if_contains o key)) [
      | inl gone ↦
          let read = member-missing json laws convert default o key gone in
          (
            (λ e. inl (gone, cc (read, e))),
            λ h. elim h [ inl (_, same) ↦ read ∙ ap ok (sym same) | inr (v, there, _) ↦ cc gone ],
          )
      | inr (w, there) ↦
          let read = member-found json laws convert default o key w there in
          (
            (λ e. inr (w, there, (agrees w x).0 (sym read ∙ e))),
            λ h. elim h [
              | inl (gone, _) ↦ cc there
              | inr (v, there', said) ↦
                  let same : v ≡ w = cc (there, there') in read ∙ rw same at ((agrees v x).1 said)
            ],
          )
    ]

    pub string_member :
        (o : Object) (key s : String)
        → (member json to_string "" o key ≡ ok s) ↔ MemberSays SaysString "" o key s
    string_member o key s = member_iff to_string SaysString (λ v x. ((λ e. e), (λ e. e))) "" o key s

    pub bool_member :
        (o : Object) (key : String) (b : Bool)
        → (member json to_bool false o key ≡ ok b) ↔ MemberSays SaysBool false o key b
    bool_member o key b = member_iff to_bool SaysBool (λ v x. ((λ e. e), (λ e. e))) false o key b

    pub to_commons_iff : (v : Value) (c : Commons) → (to_commons json v ≡ ok c) ↔ SaysCommons v c
    unfolding to_commons
    to_commons_iff v c = (
      λ e.
          let (o, h, e1) = bind_ok (as_object v) _ c e in
          let (a, ha, e2) = bind_ok (member json to_string "" o "appName") _ c e1 in
          let (b, hb, e3) = bind_ok (member json to_string "" o "version") _ c e2 in
          (
            o,
            h,
            (string_member o "appName" c.app_name).0 (ground arith),
            (string_member o "version" c.version).0 (ground arith),
          ),
      λ h.
          let (o, is_object, name, version) = h in
          ground (
            arith,
            (string_member o "appName" c.app_name).1 name,
            (string_member o "version" c.version).1 version,
          ),
    )

    pub to_optional_iff :
        (v : Value) (x : Option String) → (to_optional json v ≡ ok x) ↔ SaysOptional v x
    unfolding to_optional
    to_optional_iff v none = ((λ e. ground (arith, Result-cases (to_string v))), λ h. absurd h)
    to_optional_iff v (some s) =
        ((λ e. ground (arith, Result-cases (to_string v))), λ h. ground arith)

    pub optional_member :
        (o : Object) (key : String) (x : Option String)
        → (member json (to_optional json) none o key ≡ ok x) ↔ MemberSays SaysOptional none o key x
    optional_member o key x =
        member_iff (to_optional json) SaysOptional to_optional_iff none o key x
