-- ===== src/State/Cosmosdb.antt =====
-- state/cosmosdb/cosmosdb.go: the Cosmos DB state store. The client library and the codec of values
-- are parameters. `J` is the type of the values that come back, which are read from JSON.
pub mod Conflicts
mod Tests
use components_contrib.Base.{
  ◌+◌, ◌/◌, ◌%◌, String, not, ◌||◌, Option, none, some, List, [], ◌∷◌, ◌==◌, if◌then◌else◌, Error,
  formatted, Result, ok, then_result,
}
use components_contrib.State.Requests.{
  Bytes, Metadata, GetRequest, DeleteRequest, Value, SetRequest, GetResponse, strong, eventual,
}
use components_contrib.Base.Effect.{Eff, ◌>>=◌, ◌>>◌, pure, fail, lift, for_each}
use components_contrib.Base.Text.{◌+s◌}
use components_contrib.State.Options.{check_set_request_options, check_delete_request_options}
use components_contrib.Base.Text.Json.{json_field}

-- The struct credentials, which is read from the metadata.
pub record Credentials : Type 0 where
  pub url : String
  pub master_key : String
  pub database : String
  pub collection : String

-- A database or a collection: its Id and its Self.
pub record Resource : Type 0 where
  pub id : String
  pub self_link : String

-- The call options. An empty consistency is that none is asked for.
pub record CallOptions : Type 0 where
  pub partition_key : String
  pub if_match : Option String
  pub consistency_level : Option String

-- What is used of a CosmosItem that is read.
pub record CosmosItem (J : Type 0) : Type 0 where
  pub value : J
  pub etag : String

-- `query_documents` takes the link of the collection and the id that is asked for,
-- `upsert_document` the link, the id and the value.
pub record Client (W V J : Type 0) : Type 0 where
  pub query_databases : String → Eff W (List Resource)
  pub query_collections : String → String → Eff W (List Resource)
  pub query_documents : String → String → CallOptions → Eff W (List (CosmosItem J))
  pub upsert_document : String → String → Value V → CallOptions → Eff W (Unit {0})
  pub delete_document : String → CallOptions → Eff W (Unit {0})

-- The struct StateStore, initialised.
pub record StateStore (W V J : Type 0) : Type 0 where
  pub client : Client W V J
  pub db : Resource
  pub collection : Resource

pub credentials_of : Metadata → Credentials
credentials_of metadata = record {
  url = json_field metadata.properties "url";
  master_key = json_field metadata.properties "masterKey";
  database = json_field metadata.properties "database";
  collection = json_field metadata.properties "collection";
}

-- The first of what is found, or the error that there is none.
abbrev pub first_of : {W : Type 0} → Error → List Resource → Eff W Resource
first_of e [] = fail e
first_of e (x ∷ xs) = pure x

-- `new_client` is documentdb.New of a URL and a key.
module _ {W V J : Type 0} (new_client : String → String → Client W V J) where
  pub init : Metadata → Eff W (StateStore W V J)
  unfolding credentials_of
  init metadata = do
    let creds = credentials_of metadata
    let client = new_client creds.url creds.master_key
    dbs ← client.query_databases creds.database
    db ←
        first_of (formatted "database %s for CosmosDB state store not found" (creds.database ∷ []))
          dbs
    colls ← client.query_collections db.self_link creds.collection
    coll ←
        first_of
          (formatted "collection %s for CosmosDB state store not found" (creds.collection ∷ []))
          colls
    pure (record { client = client; db = db; collection = coll })

-- The options of a call: a condition for an ETag, and a level for a consistency.
pub call_options : String → String → String → CallOptions
call_options key etag consistency = record {
  partition_key = key;
  if_match = if etag == "" then none else some etag;
  consistency_level =
      if consistency == strong || consistency == eventual then some consistency else none;
}

-- The response to what is found; `none` is the nil response for a key that is not there.
pub answer_of :
    {J : Type 0} → (J → Result Bytes) → List (CosmosItem J) → Result (Option GetResponse)
answer_of marshal [] = ok none
answer_of marshal (item ∷ items) =
    then_result (marshal item.value)
      λ b. ok (some (record { payload = b; etag = item.etag; metadata = [] }))

module _ {W V J : Type 0} (c : StateStore W V J) where
  pub get_item : (J → Result Bytes) → GetRequest → Eff W (Option GetResponse)
  unfolding call_options answer_of
  get_item marshal req = do
    items ←
        c.client.query_documents c.collection.self_link req.key
          (call_options req.key "" req.options.consistency)
    lift (answer_of marshal items)

  -- The concurrency that is asked for is checked, and not used.
  pub set_item : SetRequest V → Eff W (Unit {0})
  unfolding call_options
  set_item req = do
    lift (check_set_request_options req)
    c.client.upsert_document c.collection.self_link req.key req.value
        (call_options req.key req.etag req.options.consistency)

  pub bulk_set : List (SetRequest V) → Eff W (Unit {0})
  unfolding set_item
  bulk_set = for_each set_item

  abbrev pub self_link_of : String → String
  self_link_of key = "dbs/" +s c.db.id +s "/colls/" +s c.collection.id +s "/docs/" +s key

  pub delete_item : DeleteRequest → Eff W (Unit {0})
  unfolding call_options
  delete_item req = do
    lift (check_delete_request_options req)
    c.client.delete_document (self_link_of req.key)
        (call_options req.key req.etag req.options.consistency)

  pub bulk_delete : List DeleteRequest → Eff W (Unit {0})
  unfolding delete_item
  bulk_delete = for_each delete_item
