-- ===== src/State/Mongodb/Settings.antt =====
-- Init of state/mongodb/mongodb.go and what it reads from the metadata.
use components_contrib.Base.{
  String, ◌≡◌, refl, ◌&&◌, Option, none, some, [], ◌∷◌, ◌==◌, ◌!=◌, if◌then◌else◌, created,
  formatted, wrapped, external, Result, ok, err, then_result, map_error,
}
use components_contrib.Base.Effect.{Eff, ◌>>=◌, pure, fail, lift, on_error, Holds, continue-Holds}
use components_contrib.Base.Text.{◌+s◌}
use components_contrib.Base.Text.Decimal.{atoi}
use components_contrib.Base.Signed.{pos, Duration}
use components_contrib.State.Requests.{present, Metadata}
use components_contrib.State.Mongodb.{
  MongoDbMetadata, WriteConcern, majority, acknowledged_by, ReadConcern, local, majority_read,
  available, linearizable, snapshot, Client, MongoDb,
}

abbrev or_default : Option String → String → String
or_default none d = d
or_default (some v) d = v

-- The operation timeout of the metadata: 0 for none, since the default is overwritten.
pub timeout_of : (String → Result Duration) → Option String → Result Duration
timeout_of parse_duration none = ok 0
timeout_of parse_duration (some val) =
    map_error (λ e. created "incorrect operationTimeout field from metadata") (parse_duration val)

pub get_mongodb_metadata : (String → Result Duration) → Metadata → Result MongoDbMetadata
unfolding timeout_of
get_mongodb_metadata parse_duration metadata =
    let p = present metadata.properties in
    elim (p "host") [
      | none ↦ err (created "missing or empty host field from metadata")
      | some val ↦ then_result (timeout_of parse_duration (p "operationTimeout")) λ t. ok (record {
        host = val;
        username = or_default (p "username") "";
        password = or_default (p "password") "";
        database_name = or_default (p "databaseName") "daprStore";
        collection_name = or_default (p "collectionName") "daprCollection";
        write_concern = or_default (p "writeConcern") "";
        read_concern = or_default (p "readConcern") "";
        operation_timeout = t;
      })
    ]

-- The URI that `getMongoDBClient` connects to: empty without a user name and a password.
pub connection_uri : MongoDbMetadata → String
connection_uri meta =
    if meta.username != "" && meta.password != ""
    then "mongodb://" +s meta.username +s ":" +s meta.password +s "@" +s meta.host +s "/"
      +s meta.database_name
    else ""

abbrev default_timeout : Duration
default_timeout = 5000000000

-- `connect` is mongo.Connect with the URI, in a context with the time.
get_mongodb_client :
    {W : Type 0} → (Duration → String → Eff W (Client W)) → MongoDbMetadata → Eff W (Client W)
unfolding connection_uri
get_mongodb_client connect meta = connect default_timeout (connection_uri meta)

pub get_write_concern_object : String → Result WriteConcern
get_write_concern_object cn =
    if cn != ""
    then (if cn == "majority" then ok majority else (elim (atoi cn) [
      | some w ↦ ok (acknowledged_by w)
      | none ↦ err (external "strconv.Atoi")
    ]))
    else ok (acknowledged_by (pos 1))

pub get_read_concern_object : String → Result ReadConcern
get_read_concern_object cn =
    if cn == "local"
    then ok local
    else if cn == "majority"
    then ok majority_read
    else if cn == "available"
    then ok available
    else if cn == "linearizable"
    then ok linearizable
    else if cn == "snapshot"
    then ok snapshot
    else if cn == ""
    then ok local
    else err (formatted "readConcern %s not found" (cn ∷ []))

module _ {W : Type 0} (parse_duration : String → Result Duration)
    (connect : Duration → String → Eff W (Client W)) where
  -- The operation timeout of a new store is 0, and Init does not assign it.
  unfoldable pub init : Metadata → Eff W (MongoDb W)
  unfolding get_mongodb_metadata get_mongodb_client get_write_concern_object get_read_concern_object
  init metadata = do
    meta ← lift (get_mongodb_metadata parse_duration metadata)
    client ←
        on_error (get_mongodb_client connect meta)
          (λ e. fail (wrapped "error in creating mongodb client: %s" [] e))
    wc ← lift (
        map_error (wrapped "error in getting write concern object: %s" [])
          (get_write_concern_object meta.write_concern))
    rc ← lift (
        map_error (wrapped "error in getting read concern object: %s" [])
          (get_read_concern_object meta.read_concern))
    pure (record {
      client = client;
      collection = client.collection meta.database_name meta.collection_name wc rc;
      operation_timeout = 0;
    })

  pub init-Holds :
      (metadata : Metadata) (w : W) → Holds (λ m. m.operation_timeout ≡ 0) (init metadata w).0
  unfolding init
  init-Holds metadata w =
      continue-Holds _ (get_mongodb_metadata parse_duration metadata) _ w λ meta v.
        let connected =
          on_error (get_mongodb_client connect meta)
            (λ e. fail (wrapped "error in creating mongodb client: %s" [] e)) v in
        continue-Holds _ connected.0 _ connected.1 λ client v1.
          continue-Holds _ (map_error _ (get_write_concern_object meta.write_concern)) _ v1 λ wc v2.
            continue-Holds _ (map_error _ (get_read_concern_object meta.read_concern)) _ v2
              λ rc v3. refl
