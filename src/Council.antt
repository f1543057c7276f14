-- ===== src/Council.antt =====
-- libs/core/include/core/student_council.hpp and libs/core/src/student_council.cpp with the officers
-- beside them: general_affairs_officer, president, vice_president, secretary, historian and
-- treasurer. The council has an officer of each class, who greet in turn. Only the historian has
-- something to say. `io_context_`, which nothing uses, is left out.
pub mod Greetings
use cmake_sample.Common.{ℕ, ◌/◌, ◌%◌, String, List, [], ◌∷◌}
use cmake_sample.Logging.{LogCall, debug, write}

-- `BOOST_LIB_VERSION` and `BOOST_VERSION`.
pub record Boost : Type 0 where
  pub lib_version : String
  pub version : ℕ

-- The historian's lines.
pub data Greeting : Type 0 where
  version_string : String → Greeting
  version_numbers : (major minor patch : ℕ) → Greeting

-- What an officer does to the log, where `say` makes the text of a line.
abbrev pub Hello : (P T : Type 0) → Type 0
Hello P T = (say : Greeting → T) (boost : Boost) → List (LogCall P T) → List (LogCall P T)

-- The base class, with its virtual function.
pub record GeneralAffairsOfficer (P T Officer : Type 0) : Type 0 where
  pub hello : Officer → Hello P T

abbrev pub hello :
    {P T Officer : Type 0} ⦃c : GeneralAffairsOfficer P T Officer⦄ → Officer → Hello P T
hello ⦃c⦄ officer = c.hello officer

-- `general_affairs_officer::hello`, for a class that does not override it.
pub hello_default : {P T Officer : Type 0} → Officer → Hello P T
hello_default officer say boost log = log

-- The classes that derive from it have no members.
pub data President : Type 0 where
  president : President

pub data VicePresident : Type 0 where
  vice_president : VicePresident

pub data Secretary : Type 0 where
  secretary : Secretary

pub data Historian : Type 0 where
  historian : Historian

pub data Treasurer : Type 0 where
  treasurer : Treasurer

abbrev pub hello_president : {P T : Type 0} → President → Hello P T
hello_president officer say boost log = log

abbrev pub hello_vice_president : {P T : Type 0} → VicePresident → Hello P T
hello_vice_president officer say boost log = log

abbrev pub hello_secretary : {P T : Type 0} → Secretary → Hello P T
hello_secretary officer say boost log = log

pub hello_historian : {P T : Type 0} → Historian → Hello P T
hello_historian officer say boost log =
    let named = write debug (say (version_string boost.lib_version)) log in
    write debug
      (say (
        version_numbers (boost.version / 100000) (boost.version / 100 % 1000)
          (boost.version % 100)))
      named

abbrev pub hello_treasurer : {P T : Type 0} → Treasurer → Hello P T
hello_treasurer officer say boost log = log

instance abbrev pub president_class : {P T : Type 0} → GeneralAffairsOfficer P T President
president_class = record { hello = hello_president }

instance abbrev pub vice_president_class : {P T : Type 0} → GeneralAffairsOfficer P T VicePresident
vice_president_class = record { hello = hello_vice_president }

instance abbrev pub secretary_class : {P T : Type 0} → GeneralAffairsOfficer P T Secretary
secretary_class = record { hello = hello_secretary }

instance abbrev pub historian_class : {P T : Type 0} → GeneralAffairsOfficer P T Historian
historian_class = record { hello = hello_historian }

instance abbrev pub treasurer_class : {P T : Type 0} → GeneralAffairsOfficer P T Treasurer
treasurer_class = record { hello = hello_treasurer }

-- The members of the singleton.
pub record StudentCouncil : Type 0 where
  pub the_president : President
  pub the_vice_president : VicePresident
  pub the_secretary : Secretary
  pub the_historian : Historian
  pub the_treasurer : Treasurer

-- `student_council::instance()`.
abbrev pub council : StudentCouncil
council = record {
  the_president = president;
  the_vice_president = vice_president;
  the_secretary = secretary;
  the_historian = historian;
  the_treasurer = treasurer;
}

-- `student_council::hello`.
unfoldable pub council_hello : {P T : Type 0} → StudentCouncil → Hello P T
unfolding hello_historian
council_hello c say boost log =
    let log1 = hello c.the_president say boost log in
    let log2 = hello c.the_vice_president say boost log1 in
    let log3 = hello c.the_secretary say boost log2 in
    let log4 = hello c.the_historian say boost log3 in hello c.the_treasurer say boost log4

-- `student_council::run`, which looks up the options and leaves them as they are.
abbrev pub council_run {ℓ} : {O : Type ℓ} → StudentCouncil → O → O
council_run c options = options
