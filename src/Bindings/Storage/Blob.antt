-- ===== src/Bindings/Storage/Blob.antt =====
-- bindings/blobstorage/blobstorage.go
use components_contrib.Base.{
  String, Option, none, some, [], wrapped, nil_dereference, Result, map_error,
}
use components_contrib.Base.Effect.{Eff, ignore, ◌>>=◌, ◌>>◌, pure, crash, lift}
use components_contrib.Base.Text.{◌+s◌}
use components_contrib.State.Requests.{Bytes}
use components_contrib.Bindings.Messages.{Metadata, WriteRequest}
use components_contrib.Base.Text.Json.{json_field}
use components_contrib.Bindings.Storage.{store_object}

pub record BlobStorageMetadata : Type 0 where
  pub storage_account : String
  pub storage_access_key : String
  pub container : String

-- A container by its URL.
pub record Container (W : Type 0) : Type 0 where
  pub create : Eff W (Unit {0})
  pub upload : String → Bytes → Eff W (Unit {0})

pub parse_metadata : Metadata → BlobStorageMetadata
parse_metadata metadata = record {
  storage_account = json_field metadata.properties "storageAccount";
  storage_access_key = json_field metadata.properties "storageAccessKey";
  container = json_field metadata.properties "container";
}

abbrev pub container_url : BlobStorageMetadata → String
container_url m = "https://" +s m.storage_account +s ".blob.core.windows.net/" +s m.container

-- `new_credential` checks the account and its key, and gives the container of a URL that is used with
-- them; `none` is a URL that does not parse, of which the code takes the address.
module _ {W : Type 0}
    (new_credential : String → String → Result (String → Option (Container W))) where
  pub init : Metadata → Eff W (Container W)
  unfolding parse_metadata
  init metadata = do
    let m = parse_metadata metadata
    containers ← lift (
        map_error (wrapped "invalid credentials with error: %s" [])
          (new_credential m.storage_account m.storage_access_key))
    elim (containers (container_url m)) [
      | none ↦ crash nil_dereference
      | some container ↦ do ignore container.create; pure container
    ]

pub write : {W : Type 0} → (W → String × W) → Container W → WriteRequest → Eff W (Unit {0})
write new_uuid container = store_object new_uuid "blobName" container.upload
