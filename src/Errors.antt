-- ===== src/Errors.antt =====
-- libs/core/include/core/exceptions and libs/core/src/exceptions: the exceptions `show_help` and
-- `my_error`, beside those of the libraries, and their `what()`.
pub mod What
use cmake_sample.Common.{Bool, true, Option, none, some, String, Result, ok, err, if◌then◌else◌}
use Prim.Native.String.{◌++◌ as ◌joined◌}
use text.Mathlib.Text.{◌==◌ as str_eq}

-- An exception of a library: whether handlers of `boost::exception` and `std::exception` catch it.
pub record Foreign : Type 0 where
  pub is_boost : Bool
  pub is_std : Bool
  pub text : String

-- The program's own exceptions carry an `errinfo_message`, which `show_help` may lack.
pub data Exception : Type 0 where
  show_help : Option String → Exception
  my_error : String → Exception
  foreign : Foreign → Exception

-- `show_help` and `my_error` derive from `boost::exception` and from `std::exception`.
unfoldable pub is_boost : Exception → Bool
is_boost (show_help message) = true
is_boost (my_error message) = true
is_boost (foreign e) = e.is_boost

unfoldable pub is_std : Exception → Bool
is_std (show_help message) = true
is_std (my_error message) = true
is_std (foreign e) = e.is_std

-- `show_help::what()`.
pub what_show_help : Option String → String
what_show_help (some message) = message
what_show_help none = "show_help"

abbrev pub failed_to_build : String
failed_to_build = "failed to build diagnostic_information in my_error::what(): "

-- `my_error::what()`, by what `boost::diagnostic_information` gives or throws.
pub what_my_error : Result Foreign String → String
what_my_error (ok text) = if str_eq text "" then "my_error" else text
what_my_error (err e) = failed_to_build joined (if e.is_std then e.text else "unknown exception")
