-- ===== src/Factory/Registration.antt =====
-- All registrations together, in the order in which the static variables are constructed.
use cmake_sample.Common.{
  lookup, lookup-assign, string_eq, ◌≡◌, ◌⊎◌, ◌↔◌, inl, inr, refl, sym, ap, ◌∙◌, Bool, true, false,
  Option, none, some, List, [], ◌∷◌, String, err, if◌then◌else◌, Bool-cases, Option-cases,
}
use cmake_sample.Factory.{
  unknown_type, Creator, Factory, MessageClass, create_message, register_message, message_register,
  register_all, no_creators,
}
use text.Mathlib.Text.{◌==◌ as str_eq}
use text.Mathlib.TextEquality.{eq_iff}
use text.Mathlib.TextPositions.{eq_refl}

module _ (H M : Type 0) where
  abbrev or_else : Option (Creator H M) → Option (Creator H M) → Option (Creator H M)
  or_else (some c) d = some c
  or_else none d = d

  or_else_assoc : (a b d : Option (Creator H M)) → or_else a (or_else b d) ≡ or_else (or_else a b) d
  or_else_assoc (some c) b d = refl
  or_else_assoc none b d = refl

  or_else-none : (a : Option (Creator H M)) → or_else a none ≡ a
  or_else-none (some c) = refl
  or_else-none none = refl

  or_else_if :
      (same : Bool) (c : Creator H M) (d : Option (Creator H M))
      → (if same then some c else d) ≡ or_else (if same then some c else none) d
  or_else_if true c d = refl
  or_else_if false c d = refl

  -- The creator of the last class of that type.
  pub latest : String → List (MessageClass H M) → Option (Creator H M)
  latest type [] = none
  latest type (c ∷ cs) =
      or_else (latest type cs) (if str_eq c.type_name type then some c.make_shared else none)

  lookup-register_all :
      (type : String) (cs : List (MessageClass H M)) (f : Factory H M)
      → lookup type (register_all H M cs f).creators
        ≡ or_else (latest type cs) (lookup type f.creators)
  unfolding register_all message_register register_message latest
  lookup-register_all type [] f = refl
  lookup-register_all type (c ∷ cs) f =
      lookup-register_all type cs (register_message H M c.type_name c.make_shared f)
      ∙ ap (or_else (latest type cs)) (
          lookup-assign c.type_name type c.make_shared f.creators
          ∙ or_else_if (str_eq c.type_name type) c.make_shared (lookup type f.creators))
      ∙ or_else_assoc (latest type cs) _ _

  found :
      (type : String) (cs : List (MessageClass H M))
      → lookup type (register_all H M cs (no_creators H M)).creators ≡ latest type cs
  unfolding lookup
  found type cs = lookup-register_all type cs (no_creators H M) ∙ or_else-none (latest type cs)

  -- What the factory makes of a type once the classes have registered: a message by the creator of
  -- the class that registered last for the type, or the exception for an unknown type, with the heap
  -- as it was.
  pub create_message-register_all :
      (type : String) (cs : List (MessageClass H M)) (heap : H)
      → create_message H M type (register_all H M cs (no_creators H M)) heap
        ≡ elim (latest type cs) [
          | some creator ↦ creator heap
          | none ↦ (heap, err (unknown_type type))
        ]
  unfolding create_message
  create_message-register_all type cs heap = rw (found type cs, create_message)

  abbrev pub In : MessageClass H M → List (MessageClass H M) → Type 0
  In c [] = ⊥
  In c (d ∷ ds) = (d ≡ c) ⊎ In c ds

  -- No two classes have the same type.
  abbrev pub IsDistinct : List (MessageClass H M) → Type 0
  IsDistinct [] = Unit
  IsDistinct (c ∷ cs) =
      ((d : MessageClass H M) → In d cs → str_eq c.type_name d.type_name ≡ false) × IsDistinct cs

  In-of_latest :
      (type : String) (cs : List (MessageClass H M)) (x : Creator H M)
      → latest type cs ≡ some x
      → (c : MessageClass H M) × In c cs × (c.type_name ≡ type)
  unfolding latest
  In-of_latest type [] x h = cc
  In-of_latest type (c ∷ cs) x h = elim (Option-cases (latest type cs)) [
    | inr (y, later_one) ↦ let (d, i, e) = In-of_latest type cs y later_one in (d, inr i, e)
    | inl none_later ↦ elim (Bool-cases (str_eq c.type_name type)) [
      | inl e ↦ (c, inl refl, (eq_iff c.type_name type).0 e)
      | inr e ↦ let nothing : none ≡ some x = simp (none_later, e) at h in cc
    ]
  ]

  pub latest_of_In :
      (c : MessageClass H M) (cs : List (MessageClass H M))
      → IsDistinct cs
      → In c cs
      → latest c.type_name cs ≡ some c.make_shared
  unfolding latest
  latest_of_In c [] h i = absurd i
  latest_of_In c (d ∷ ds) h (inr i) = rw (latest_of_In c ds h.1 i)
  latest_of_In c (d ∷ ds) h (inl e) = elim (Option-cases (latest c.type_name ds)) [
    | inl none_later ↦ rw (none_later, e, eq_refl c.type_name) refl
    | inr (x, later_one) ↦
        let (b, i, t) = In-of_latest c.type_name ds x later_one in
        let apart : str_eq d.type_name b.type_name ≡ false = h.0 b i in
        let self : str_eq c.type_name c.type_name ≡ false = simp (e, t) at apart in
        cc (eq_refl c.type_name)
  ]

  -- Static variables of several files are constructed in no given order. If no two classes have the
  -- same type, the order makes no difference to what the factory creates of any type.
  pub registration_order :
      (cs ds : List (MessageClass H M))
      → IsDistinct cs
      → IsDistinct ds
      → ((c : MessageClass H M) → In c cs ↔ In c ds)
      → (type : String) (heap : H)
      → create_message H M type (register_all H M cs (no_creators H M)) heap
        ≡ create_message H M type (register_all H M ds (no_creators H M)) heap
  unfolding create_message
  registration_order cs ds p q same type heap =
      let agree : latest type cs ≡ latest type ds = elim (Option-cases (latest type cs)) [
        | inr (x, h) ↦
            let (c, i, e) = In-of_latest type cs x h in
            cc (latest_of_In c cs p i, latest_of_In c ds q ((same c).0 i))
        | inl h ↦ elim (Option-cases (latest type ds)) [
          | inl k ↦ h ∙ sym k
          | inr (x, k) ↦
              let (c, i, e) = In-of_latest type ds x k in cc (latest_of_In c cs p ((same c).1 i))
        ]
      ] in
      create_message-register_all type cs heap
      ∙ rw agree (sym (create_message-register_all type ds heap))
