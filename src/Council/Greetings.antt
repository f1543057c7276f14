-- ===== src/Council/Greetings.antt =====
-- What the council logs.
use cmake_sample.Common.{ℕ, ◌+◌, ◌*◌, ◌/◌, ◌%◌, ◌<◌, ◌≡◌, List, [], ◌∷◌, ◌++◌, arith, append_assoc}
use cmake_sample.Logging.{LogCall, log_line, debug}
use cmake_sample.Council.{
  Boost, Greeting, version_string, version_numbers, council_hello, council, hello_historian,
}

module _ {P T : Type 0} (say : Greeting → T) (boost : Boost) where
  -- The greetings add two debug lines to the log: the version string of Boost, and the major, minor
  -- and patch numbers that `BOOST_VERSION` is made up of, the minor below 1000 and the patch below
  -- 100.
  pub council_hello_outcome :
      (log : List (LogCall P T)) (major minor patch : ℕ)
      → minor < 1000
      → patch < 100
      → boost.version ≡ major * 100000 + minor * 100 + patch
      → council_hello council say boost log
        ≡ log
          ++ (log_line debug (say (version_string boost.lib_version))
              ∷ log_line debug (say (version_numbers major minor patch))
              ∷ [])
  unfolding council_hello hello_historian
  council_hello_outcome log major minor patch small smaller v =
      let the_major : boost.version / 100000 ≡ major = omega arith in
      let the_minor : boost.version / 100 % 1000 ≡ minor = omega arith in
      let the_patch : boost.version % 100 ≡ patch = omega arith in
      rw (the_major, the_minor, the_patch) (append_assoc log _ _)
