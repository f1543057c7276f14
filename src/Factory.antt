-- ===== src/Factory.antt =====
-- libs/comm/include/comm/messages/message_factory.hpp, libs/comm/src/messages/message_factory.cpp
-- and libs/comm/include/comm/messages/message_register.hpp: the factory that makes a message of a
-- type that is named by a text, and the registrations before `main`. A creator is code of the
-- caller: it runs on the heap `H` and returns a `shared_ptr` to a message, or throws.
pub mod Registration
pub mod Dispatch
pub mod Examples
use cmake_sample.Common.{none, some, List, [], ◌∷◌, String, Result, err, lookup, assign, string_eq}
use Prim.Native.String.{◌++◌ as ◌joined◌}

-- `std::runtime_error`, and what a creator throws.
pub data Error : Type 0 where
  runtime_error : String → Error
  thrown : String → Error

abbrev pub unknown_type : String → Error
unknown_type type = runtime_error ("Unknown message type: " joined type)

module _ (H M : Type 0) where
  abbrev pub Creator : Type 0
  Creator = H → H × Result Error M

  -- `creators_`, an `std::unordered_map`, as an association list.
  pub record Factory : Type 0 where
    pub creators : List (String × Creator)

  pub create_message : String → Factory → H → H × Result Error M
  create_message type f heap = elim (lookup type f.creators) [
    | some creator ↦ creator heap
    | none ↦ (heap, err (unknown_type type))
  ]

  pub register_message : String → Creator → Factory → Factory
  register_message type creator f = record { creators = assign type creator f.creators }

  -- A class that is registered: what its `type()` returns, and `std::make_shared` of it.
  pub record MessageClass : Type 0 where
    pub type_name : String
    pub make_shared : Creator

  -- The constructor of `message_register`.
  pub message_register : MessageClass → Factory → Factory
  message_register c f = register_message c.type_name c.make_shared f

  -- The static variables of the program are constructed one after the other.
  pub register_all : List MessageClass → Factory → Factory
  register_all [] f = f
  register_all (c ∷ cs) f = register_all cs (message_register c f)

  abbrev pub no_creators : Factory
  no_creators = record { creators = [] }
