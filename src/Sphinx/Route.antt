-- ===== src/Sphinx/Route.antt =====
-- The addresses of sphinx-benchmarks/src/route.rs: fixed numbers of bytes, read from slices and from
-- base58 texts. The coding of texts by the crate bs58 is a parameter.
pub mod DestinationAddress
pub mod NodeAddress
use fragging.Common.{◌≡◌, Option, some}
use fragging.Sphinx.Constants.{Bytes}

pub record Base58 : Type 1 where
  -- `String`
  pub Text : Type 0
  -- `bs58::encode(..).into_string()`
  pub encode : Bytes → Text
  -- `bs58::decode(..).into_vec()`
  pub decode : Text → Option Bytes
