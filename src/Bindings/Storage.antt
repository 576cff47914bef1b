-- ===== src/Bindings/Storage.antt =====
-- The output bindings that store an object: bindings/blobstorage, bindings/s3, bindings/gcpbucket and
-- bindings/redis. The client libraries and the generator of UUIDs are parameters.
pub mod Blob
pub mod Bucket
pub mod Gcp
pub mod Redis
use components_contrib.Base.{String, none, some, ok}
use components_contrib.Base.Effect.{Eff, ◌>>=◌, ◌>>◌}
use components_contrib.State.Requests.{Bytes, present}
use components_contrib.Bindings.Messages.{WriteRequest}

module _ {W : Type 0} (new_uuid : W → String × W) where
  -- The name of an object: the request's, or a new UUID.
  pub object_name : String → WriteRequest → Eff W String
  object_name field req w = elim (present req.metadata field) [
    | none ↦ let (name, w') = new_uuid w in (ok name, w')
    | some val ↦ (ok val, w)
  ]

  -- The body of a request is uploaded under its name.
  pub store_object : String → (String → Bytes → Eff W (Unit {0})) → WriteRequest → Eff W (Unit {0})
  store_object field put req = do name ← object_name field req; put name req.payload
