-- ===== src/Node/Layout.antt =====
-- crates/sshe-node/src/layout.rs: the files derived from one configuration path. `Names` has the
-- functions of `Path` for the last part of a path, and the length of a path in bytes.
use sshe.Prelude.{String, Option, ℕ, Bool, ltb}

pub record Names : Type 0 where
  pub with_extension : String → String → String
  pub file_name : String → Option String
  pub byte_length : String → ℕ

pub record Layout : Type 0 where
  pub config : String
  pub default_identity : String
  pub socket : String

module _ (names : Names) where
  -- `Layout::new`
  abbrev pub layout : String → Layout
  layout config = record {
    config = config;
    default_identity = names.with_extension config "key";
    socket = names.with_extension config "sock";
  }

  abbrev pub socket_fits : Layout → Bool
  socket_fits l = ltb (names.byte_length l.socket) 108

  abbrev pub identity_lock : String → String
  identity_lock identity = names.with_extension identity "lock"
