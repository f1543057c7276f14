-- ===== src/Settings/Schema.antt =====
-- Which JSON values are settings, and which settings they are.
use cmake_sample.Common.{◌≡◌, ◌↔◌, refl, sym, ◌∙◌, false, none, List, [], ◌∷◌, ok, bind_ok, arith}
use cmake_sample.Settings.{
  Json, Commons, ServerSettings, ClientSettings, Communications, InputFile, no_commons, no_server,
  no_communications, member, to_commons, to_server_settings, to_client_settings, to_communications,
  to_input_file, to_optional,
}
use cmake_sample.Settings.Laws.{IsJson, traverse}
use cmake_sample.Settings.Says.{
  MemberSays, SaysServer, SaysClient, SaysEach, SaysClients, SaysCommons, SaysCommunications,
  SaysInputFile, member_iff, string_member, bool_member, to_commons_iff, optional_member,
}

module _ (json : Json) where
  open json use {Value, Object, Error, as_object, if_contains, to_bool, to_string, to_vector}

  module _ (laws : IsJson json) where
    to_server_settings_iff :
        (v : Value) (s : ServerSettings) → (to_server_settings json v ≡ ok s) ↔ SaysServer json v s
    unfolding to_server_settings
    to_server_settings_iff v s = (
      λ e.
          let (o, h, e1) = bind_ok (as_object v) _ s e in
          let (a, ha, e2) = bind_ok (member json to_bool false o "enable") _ s e1 in
          let (b, hb, e3) = bind_ok (member json to_string "" o "name") _ s e2 in
          let (c, hc, e4) = bind_ok (member json (to_optional json) none o "service") _ s e3 in
          (
            o,
            h,
            (bool_member json laws o "enable" s.enable).0 (ground arith),
            (string_member json laws o "name" s.name).0 (ground arith),
            (optional_member json laws o "service" s.service).0 (ground arith),
          ),
      λ h.
          let (o, is_object, enable, name, service) = h in
          ground (
            arith,
            (bool_member json laws o "enable" s.enable).1 enable,
            (string_member json laws o "name" s.name).1 name,
            (optional_member json laws o "service" s.service).1 service,
          ),
    )

    to_client_settings_iff :
        (v : Value) (s : ClientSettings) → (to_client_settings json v ≡ ok s) ↔ SaysClient json v s
    unfolding to_client_settings
    to_client_settings_iff v s = (
      λ e.
          let (o, h, e1) = bind_ok (as_object v) _ s e in
          let (a, ha, e2) = bind_ok (member json to_bool false o "enable") _ s e1 in
          let (b, hb, e3) = bind_ok (member json to_string "" o "name") _ s e2 in
          let (c, hc, e4) = bind_ok (member json (to_optional json) none o "host") _ s e3 in
          let (d, hd, e5) = bind_ok (member json (to_optional json) none o "service") _ s e4 in
          (
            o,
            h,
            (bool_member json laws o "enable" s.enable).0 (ground arith),
            (string_member json laws o "name" s.name).0 (ground arith),
            (optional_member json laws o "host" s.host).0 (ground arith),
            (optional_member json laws o "service" s.service).0 (ground arith),
          ),
      λ h.
          let (o, is_object, enable, name, host, service) = h in
          ground (
            arith,
            (bool_member json laws o "enable" s.enable).1 enable,
            (string_member json laws o "name" s.name).1 name,
            (optional_member json laws o "host" s.host).1 host,
            (optional_member json laws o "service" s.service).1 service,
          ),
    )

    traverse_iff :
        (vs : List Value) (cs : List ClientSettings)
        → (traverse (to_client_settings json) vs ≡ ok cs) ↔ SaysEach json vs cs
    traverse_iff [] [] = ((λ e. tt), (λ h. refl))
    traverse_iff [] (c ∷ cs) = ((λ e. cc), (λ h. absurd h))
    traverse_iff (v ∷ vs) [] = (
      (λ e.
          let (x, hx, e1) = bind_ok (to_client_settings json v) _ [] e in
          let (xs, hxs, e2) = bind_ok (traverse (to_client_settings json) vs) _ [] e1 in cc),
      λ h. absurd h,
    )
    traverse_iff (v ∷ vs) (c ∷ cs) = (
      (λ e.
          let (x, hx, e1) = bind_ok (to_client_settings json v) _ (c ∷ cs) e in
          let (xs, hxs, e2) = bind_ok (traverse (to_client_settings json) vs) _ (c ∷ cs) e1 in
          ((to_client_settings_iff v c).0 (cc (hx, e2)), (traverse_iff vs cs).0 (cc (hxs, e2)))),
      λ h. rw ((to_client_settings_iff v c).1 h.0, (traverse_iff vs cs).1 h.1) refl,
    )

    to_clients_iff :
        (v : Value) (cs : List ClientSettings)
        → (to_vector (to_client_settings json) v ≡ ok cs) ↔ SaysClients json v cs
    to_clients_iff v cs = (
      λ e.
          let (vs, h, each) =
            bind_ok (to_vector ok v) (traverse (to_client_settings json)) cs
              (sym (laws.vector_of_elements (to_client_settings json) v) ∙ e) in
          (vs, h, (traverse_iff vs cs).0 each),
      λ h.
          let (vs, elements, each) = h in
          laws.vector_of_elements (to_client_settings json) v
          ∙ rw elements ((traverse_iff vs cs).1 each),
    )

    to_communications_iff :
        (v : Value) (c : Communications)
        → (to_communications json v ≡ ok c) ↔ SaysCommunications json v c
    unfolding to_communications
    to_communications_iff v c = (
      λ e.
          let (o, h, e1) = bind_ok (as_object v) _ c e in
          let (a, ha, e2) =
            bind_ok (member json (to_server_settings json) no_server o "server") _ c e1 in
          let (b, hb, e3) =
            bind_ok (member json (to_vector (to_client_settings json)) [] o "clients") _ c e2 in
          (
            o,
            h,
            (server_member o c.server).0 (ground arith),
            (clients_member o c.clients).0 (ground arith),
          ),
      λ h.
          let (o, is_object, server, clients) = h in
          ground
            (arith, (server_member o c.server).1 server, (clients_member o c.clients).1 clients),
    )
      where
        server_member :
            (o : Object) (s : ServerSettings)
            → (member json (to_server_settings json) no_server o "server" ≡ ok s)
              ↔ MemberSays json (SaysServer json) no_server o "server" s
        server_member o s =
            member_iff json laws (to_server_settings json) (SaysServer json) to_server_settings_iff
              no_server o "server" s

        clients_member :
            (o : Object) (cs : List ClientSettings)
            → (member json (to_vector (to_client_settings json)) [] o "clients" ≡ ok cs)
              ↔ MemberSays json (SaysClients json) [] o "clients" cs
        clients_member o cs =
            member_iff json laws (to_vector (to_client_settings json)) (SaysClients json)
              to_clients_iff [] o "clients" cs

    -- A JSON value is read as an input file exactly when it says that it is this one: it is an object,
    -- each member that is there is of its type, down to the optional texts, which must be texts where they are
    -- there, and every member that is missing has its default. Any other value is refused.
    pub to_input_file_iff :
        (v : Value) (f : InputFile) → (to_input_file json v ≡ ok f) ↔ SaysInputFile json v f
    unfolding to_input_file
    to_input_file_iff v f = (
      λ e.
          let (o, h, e1) = bind_ok (as_object v) _ f e in
          let (a, ha, e2) = bind_ok (member json (to_commons json) no_commons o "commons") _ f e1 in
          let (b, hb, e3) =
            bind_ok (member json (to_communications json) no_communications o "communications") _ f
              e2 in
          (
            o,
            h,
            (commons_member o f.commons).0 (ground arith),
            (communications_member o f.communications).0 (ground arith),
          ),
      λ h.
          let (o, is_object, commons, communications) = h in
          ground (
            arith,
            (commons_member o f.commons).1 commons,
            (communications_member o f.communications).1 communications,
          ),
    )
      where
        commons_member :
            (o : Object) (c : Commons)
            → (member json (to_commons json) no_commons o "commons" ≡ ok c)
              ↔ MemberSays json (SaysCommons json) no_commons o "commons" c
        commons_member o c =
            member_iff json laws (to_commons json) (SaysCommons json) (to_commons_iff json laws)
              no_commons o "commons" c

        communications_member :
            (o : Object) (c : Communications)
            → (member json (to_communications json) no_communications o "communications" ≡ ok c)
              ↔ MemberSays json (SaysCommunications json) no_communications o "communications" c
        communications_member o c =
            member_iff json laws (to_communications json) (SaysCommunications json)
              to_communications_iff no_communications o "communications" c
