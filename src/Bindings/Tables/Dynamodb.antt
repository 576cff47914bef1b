-- ===== src/Bindings/Tables/Dynamodb.antt =====
-- bindings/dynamodb/dynamodb.go. `V` is what json.Unmarshal reads, `I` what MarshalMap makes of it.
use components_contrib.Base.{String, Result}
use components_contrib.Base.Effect.{Eff, ◌>>=◌, pure, lift}
use components_contrib.State.Requests.{Bytes}
use components_contrib.Bindings.Messages.{Metadata, WriteRequest}
use components_contrib.Base.Text.Json.{json_field}

pub record DynamoDbMetadata : Type 0 where
  pub region : String
  pub access_key : String
  pub secret_key : String
  pub table : String

-- `put_item` takes the table and the item.
pub record Client (W I : Type 0) : Type 0 where
  pub put_item : String → I → Eff W (Unit {0})

pub record DynamoDb (W I : Type 0) : Type 0 where
  pub client : Client W I
  pub table : String

pub get_dynamo_db_metadata : Metadata → DynamoDbMetadata
get_dynamo_db_metadata spec = record {
  region = json_field spec.properties "region";
  access_key = json_field spec.properties "accessKey";
  secret_key = json_field spec.properties "secretKey";
  table = json_field spec.properties "table";
}

module _ {W I : Type 0} (new_session : String → String → String → Eff W (Client W I)) where
  pub get_client : DynamoDbMetadata → Eff W (Client W I)
  get_client meta = new_session meta.region meta.access_key meta.secret_key

  pub init : Metadata → Eff W (DynamoDb W I)
  unfolding get_dynamo_db_metadata get_client
  init metadata = do
    let meta = get_dynamo_db_metadata metadata
    client ← get_client meta
    pure (record { client = client; table = meta.table })

module _ {W I V : Type 0} (unmarshal : Bytes → Result V) (marshal_map : V → Result I) where
  pub write : DynamoDb W I → WriteRequest → Eff W (Unit {0})
  write d req = do
    obj ← lift (unmarshal req.payload)
    item ← lift (marshal_map obj)
    d.client.put_item d.table item
