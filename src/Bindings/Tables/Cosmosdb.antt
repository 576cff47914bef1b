-- ===== src/Bindings/Tables/Cosmosdb.antt =====
-- bindings/cosmosdb/cosmosdb.go. `V` is what json.Unmarshal reads.
use components_contrib.Base.{
  String, Bool, Option, none, some, List, [], ◌∷◌, if◌then◌else◌, Error, formatted,
  failed_type_assertion, Result,
}
use components_contrib.Base.Effect.{Eff, ◌>>=◌, pure, fail, crash, lift}
use components_contrib.State.Requests.{Bytes}
use components_contrib.Bindings.Messages.{Metadata, WriteRequest}
use components_contrib.Base.Text.Json.{json_field}

pub record Credentials : Type 0 where
  pub url : String
  pub master_key : String
  pub database : String
  pub collection : String
  pub partition_key : String

-- The answers to queries are the links of what is found; `create_document` takes the link of the
-- collection, the document and the value of its partition key.
pub record Client (W V : Type 0) : Type 0 where
  pub query_databases : String → Eff W (List String)
  pub query_collections : String → String → Eff W (List String)
  pub create_document : String → V → V → Eff W (Unit {0})

-- The struct CosmosDB, initialised.
pub record CosmosDb (W V : Type 0) : Type 0 where
  pub client : Client W V
  pub collection : String
  pub partition_key : String

pub parse_metadata : Metadata → Credentials
parse_metadata metadata = record {
  url = json_field metadata.properties "url";
  master_key = json_field metadata.properties "masterKey";
  database = json_field metadata.properties "database";
  collection = json_field metadata.properties "collection";
  partition_key = json_field metadata.properties "partitionKey";
}

-- The first of a list, or the error that there is none.
abbrev pub first_of : {W : Type 0} → Error → List String → Eff W String
first_of e [] = fail e
first_of e (x ∷ xs) = pure x

-- `new_client` is documentdb.New of a URL and a key.
module _ {W V : Type 0} (new_client : String → String → Client W V) where
  pub init : Metadata → Eff W (CosmosDb W V)
  unfolding parse_metadata
  init metadata = do
    let m = parse_metadata metadata
    let client = new_client m.url m.master_key
    dbs ← client.query_databases m.database
    db ← first_of (formatted "database %s for CosmosDB state store not found" (m.database ∷ [])) dbs
    colls ← client.query_collections db m.collection
    coll ←
        first_of (formatted "collection %s for CosmosDB state store not found" (m.collection ∷ []))
          colls
    pure (record { client = client; collection = coll; partition_key = m.partition_key })

-- `fields` is the map that the type assertion makes of a document, `none` if it is not an object;
-- `is_empty` says that a value is the empty text.
module _ {W V : Type 0} (unmarshal : Bytes → Result V) (fields : V → Option (String → Option V))
    (is_empty : V → Bool) where
  pub write : CosmosDb W V → WriteRequest → Eff W (Unit {0})
  write c req =
      let missing =
        fail (formatted "missing partitionKey field %s from request body" (c.partition_key ∷ [])) in
      lift (unmarshal req.payload) >>= λ obj. elim (fields obj) [
        | none ↦ crash failed_type_assertion
        | some get ↦ elim (get c.partition_key) [
          | none ↦ missing
          | some val ↦
              if is_empty val then missing else c.client.create_document c.collection obj val
        ]
      ]
