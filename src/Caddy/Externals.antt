-- ===== src/Caddy/Externals.antt =====
-- The code of other packages that the daemon calls on the way of a mutation.
use cadder.Base.{ℕ, String, Option, List}
use cadder.Caddy.Json.{Value}

pub record Externals : Type 0 where
  -- `idna::domain_to_ascii`; `none` is its error.
  pub domain_to_ascii : String → Option String
  -- `serde_json::to_vec_pretty`.
  pub to_vec_pretty : Value → List ℕ
  -- `hex::encode(Sha256::digest(..))`.
  pub sha256_hex : List ℕ → String
  -- The replacements of `Redactor::redact`, which are those of the `regex` package.
  pub redact : String → String
