-- ===== src/Host.antt =====
-- What the services take from the host and from libraries: files and paths, SHA-256 in hexadecimal,
-- ed25519, and the printing of `f64`. All are parameters of the models.
use pagi_digital_twin.Base.{ℕ, String, Bool, List}
use pagi_digital_twin.Base.Float.{F64}
use Prim.Native.String.{◌++◌ as append}

-- The result of `read_to_string`: the content, or the text of the error.
pub data Read : Type 0 where
  content : String → Read
  failed : String → Read

pub record Host : Type 0 where
  pub exists : String → Bool
  pub read : String → Read
  pub join : String → String → String  -- `Path::join`
  pub sha256_hex : String → String
  pub valid_key : List ℕ → Bool  -- `VerifyingKey::from_bytes` succeeds
  pub valid_signature : List ℕ → Bool  -- `Signature::from_bytes` succeeds
  pub verify : (key nonce signature : List ℕ) → Bool
  pub show_f64 : F64 → String  -- `{}`
  pub show_f64_2 : F64 → String  -- `{:.2}`

-- `format!` of texts one after the other.
infixr 60 ◌<>◌
abbrev pub ◌<>◌ : String → String → String
a <> b = append a b
