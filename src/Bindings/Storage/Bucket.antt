-- ===== src/Bindings/Storage/Bucket.antt =====
-- bindings/s3/s3.go
use components_contrib.Base.{String}
use components_contrib.Base.Effect.{Eff, ◌>>=◌, pure}
use components_contrib.State.Requests.{Bytes}
use components_contrib.Bindings.Messages.{Metadata, WriteRequest}
use components_contrib.Base.Text.Json.{json_field}
use components_contrib.Bindings.Storage.{store_object}

pub record S3Metadata : Type 0 where
  pub region : String
  pub access_key : String
  pub secret_key : String
  pub bucket : String

-- `upload` takes the bucket, the key and the body.
pub record Uploader (W : Type 0) : Type 0 where
  pub upload : String → String → Bytes → Eff W (Unit {0})

pub record AwsS3 (W : Type 0) : Type 0 where
  pub metadata : S3Metadata
  pub uploader : Uploader W

pub parse_metadata : Metadata → S3Metadata
parse_metadata metadata = record {
  region = json_field metadata.properties "region";
  access_key = json_field metadata.properties "accessKey";
  secret_key = json_field metadata.properties "secretKey";
  bucket = json_field metadata.properties "bucket";
}

-- `new_session` takes the region and the keys.
module _ {W : Type 0} (new_session : String → String → String → Eff W (Uploader W)) where
  pub get_client : S3Metadata → Eff W (Uploader W)
  get_client metadata = new_session metadata.region metadata.access_key metadata.secret_key

  pub init : Metadata → Eff W (AwsS3 W)
  unfolding parse_metadata get_client
  init metadata = do
    let m = parse_metadata metadata
    uploader ← get_client m
    pure (record { metadata = m; uploader = uploader })

pub write : {W : Type 0} → (W → String × W) → AwsS3 W → WriteRequest → Eff W (Unit {0})
write new_uuid s = store_object new_uuid "key" (s.uploader.upload s.metadata.bucket)
