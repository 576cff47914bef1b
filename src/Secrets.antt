-- ===== src/Secrets.antt =====
-- secretstores/: the types of get_secret_request.go, get_secret_response.go and metadata.go, and the
-- interface of secret_store.go.
pub mod Vault
pub mod Keyvault
pub mod Kubernetes
mod Tests
use components_contrib.Base.{String}
use components_contrib.Base.Effect.{Eff}
use components_contrib.State.Requests.{Properties}

pub record Metadata : Type 0 where
  pub properties : Properties

pub record GetSecretRequest : Type 0 where
  pub name : String
  pub metadata : Properties

pub record GetSecretResponse : Type 0 where
  pub entries : Properties

abbrev pub default_secret_ref_key_name : String
default_secret_ref_key_name = "_value"

-- The interface SecretStore, over the world `W`; `S` is the store that Init makes.
pub record SecretStore (W S : Type 0) : Type 0 where
  pub init : Metadata → Eff W S
  pub get_secret : S → GetSecretRequest → Eff W GetSecretResponse
