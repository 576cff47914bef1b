-- ===== src/State/Cassandra/Settings.antt =====
-- Init of state/cassandra/cassandra.go and what it reads from the metadata.
use components_contrib.Base.{
  String, ◌&&◌, Option, none, some, [], ◌∷◌, ◌==◌, ◌!=◌, if◌then◌else◌, created, formatted, wrapped,
  Result, ok, err, then_result, map_error,
}
use components_contrib.Base.Effect.{Eff, ◌>>=◌, ◌>>◌, pure, fail, lift, on_error}
use components_contrib.Base.Signed.{ℤ, pos}
use components_contrib.Base.Text.{◌+s◌, split}
use components_contrib.Base.Text.Decimal.{itoa}
use components_contrib.State.Requests.{present, Metadata}
use components_contrib.State.Cassandra.{
  Consistency, all, one, two, three, quorum, local_quorum, each_quorum, local_one, any,
  CassandraMetadata, ClusterConfig, Driver, Cassandra,
}

abbrev or_default : Option String → String → String
or_default none d = d
or_default (some v) d = v

pub get_consistency : String → Result Consistency
get_consistency consistency =
    if consistency == "All"
    then ok all
    else if consistency == "One"
    then ok one
    else if consistency == "Two"
    then ok two
    else if consistency == "Three"
    then ok three
    else if consistency == "Quorum"
    then ok quorum
    else if consistency == "LocalQuorum"
    then ok local_quorum
    else if consistency == "EachQuorum"
    then ok each_quorum
    else if consistency == "LocalOne"
    then ok local_one
    else if consistency == "Any"
    then ok any
    else if consistency == ""
    then ok all
    else err (formatted "consistency mode %s not found" (consistency ∷ []))

-- An optional number of the metadata, with its default and the message for one that is none.
pub number_or : (String → Result ℤ) → ℤ → String → Option String → Result ℤ
number_or parse_int default message none = ok default
number_or parse_int default message (some val) = map_error (wrapped message []) (parse_int val)

pub get_cassandra_metadata : (String → Result ℤ) → Metadata → Result CassandraMetadata
unfolding number_or
get_cassandra_metadata parse_int metadata =
    let p = present metadata.properties in
    elim (p "hosts") [
      | none ↦ err (created "missing or empty hosts field from metadata")
      | some val ↦
          then_result
            (number_or parse_int (pos 4) "error parsing protoVersion field: %s" (p "protoVersion"))
            λ proto_version.
              then_result
                (number_or parse_int (pos 1) "error parsing replicationFactor field: %s"
                  (p "replicationFactor"))
                λ replication_factor. ok (record {
                  hosts = split b',' val;
                  proto_version = proto_version;
                  replication_factor = replication_factor;
                  username = or_default (p "username") "";
                  password = or_default (p "password") "";
                  consistency = or_default (p "consistency") "All";
                  table = or_default (p "table") "items";
                  keyspace = or_default (p "keyspace") "dapr";
                })
    ]

pub create_cluster_config : CassandraMetadata → Result ClusterConfig
unfolding get_consistency
create_cluster_config meta = then_result (get_consistency meta.consistency) λ cons. ok (record {
  hosts = meta.hosts;
  authenticator =
      if meta.username != "" && meta.password != ""
      then some (meta.username, meta.password)
      else none;
  proto_version = meta.proto_version;
  consistency = cons;
})

pub keyspace_query : String → ℤ → String
keyspace_query keyspace replication_factor =
    "CREATE KEYSPACE IF NOT EXISTS "
    +s keyspace
    +s " WITH REPLICATION = {'class' : 'SimpleStrategy', 'replication_factor' : "
    +s itoa replication_factor
    +s "};"

pub table_query : String → String → String
table_query table keyspace =
    "CREATE TABLE IF NOT EXISTS " +s keyspace +s "." +s table
    +s " (key text, value blob, PRIMARY KEY (key));"

module _ {W : Type 0} (driver : Driver W) (parse_int : String → Result ℤ) where
  pub init : Metadata → Eff W (Cassandra W)
  unfolding get_cassandra_metadata create_cluster_config keyspace_query table_query
  init metadata = do
    meta ← lift (get_cassandra_metadata parse_int metadata)
    cluster ←
        lift
          (map_error (wrapped "error creating cluster config: %s" []) (create_cluster_config meta))
    session ←
        on_error (driver.create_session cluster)
          (λ e. fail (wrapped "error creating session: %s" [] e))
    on_error (session.exec (keyspace_query meta.keyspace meta.replication_factor) [])
        (λ e. fail (wrapped "error creating keyspace %s: %s" (meta.table ∷ []) e))
    on_error (session.exec (table_query meta.table meta.keyspace) [])
        (λ e. fail (wrapped "error creating keyspace %s: %s" (meta.table ∷ []) e))
    pure (record {
      session = session;
      cluster = cluster;
      table = meta.keyspace +s "." +s meta.table;
    })
