-- ===== src/Ssher/Error.antt =====
-- crates/ssher/src/error.rs. The sources that an error only prints are left out.
use sshe.Io.{IoError}
use sshe.Prelude.{ℕ, List, [], ◌∷◌, String}

mutual
  pub data Error : Type 0 where
    -- the operation, and what it met
    io : String → IoError → Error
    parse : String → Error
    serialize environment clock utf8 : Error
    invalid : String → Error
    -- the endpoint, its port, and what the probe met
    probe : String → ℕ → Error → Error
    unreachable : Errors → Error

  -- `Vec<Error>`
  pub data Errors : Type 0 where
    none_left : Errors
    and_then_error : Error → Errors → Errors

abbrev pub errors : List Error → Errors
errors [] = none_left
errors (e ∷ es) = and_then_error e (errors es)
