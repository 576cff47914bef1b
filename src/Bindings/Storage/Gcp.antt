-- ===== src/Bindings/Storage/Gcp.antt =====
-- bindings/gcpbucket/bucket.go
use components_contrib.Base.{String, Result}
use components_contrib.Base.Effect.{Eff, ◌>>=◌, pure, lift}
use components_contrib.State.Requests.{Bytes, Properties}
use components_contrib.Bindings.Messages.{Metadata, WriteRequest}
use components_contrib.Base.Text.Json.{json_field}
use components_contrib.Bindings.Storage.{store_object}

-- A writer of an object: the error of its Close is dropped, and so left out.
pub record Writer (W : Type 0) : Type 0 where
  pub write_bytes : Bytes → Eff W (Unit {0})
  pub close : W → W

pub record Client (W : Type 0) : Type 0 where
  pub new_writer : String → String → W → Writer W × W

-- The struct GCPStorage, initialised, with the field of its metadata that is used afterwards.
pub record GcpStorage (W : Type 0) : Type 0 where
  pub bucket : String
  pub client : Client W

module _ {W : Type 0} (marshal : Properties → Result Bytes)
    (new_client : Bytes → Eff W (Client W)) where
  pub parse_metadata : Metadata → Result Bytes
  parse_metadata metadata = marshal metadata.properties

  pub init : Metadata → Eff W (GcpStorage W)
  unfolding parse_metadata
  init metadata = do
    b ← lift (parse_metadata metadata)
    client ← new_client b
    pure (record { bucket = json_field metadata.properties "bucket"; client = client })

-- The writer is closed whatever it answered.
pub put_object : {W : Type 0} → GcpStorage W → String → Bytes → Eff W (Unit {0})
put_object g name body w =
    let (h, w') = g.client.new_writer g.bucket name w in
    let (r, w'') = h.write_bytes body w' in (r, h.close w'')

pub write : {W : Type 0} → (W → String × W) → GcpStorage W → WriteRequest → Eff W (Unit {0})
unfolding put_object
write new_uuid g = store_object new_uuid "name" (put_object g)
