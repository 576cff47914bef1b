-- ===== src/Bindings/Services/Sns.antt =====
-- bindings/sns/sns.go. The client library, json.Unmarshal into the struct dataPayload and the verb %v
-- of fmt.Sprintf are parameters.
use components_contrib.Base.{String, Result}
use components_contrib.Base.Effect.{Eff, ◌>>=◌, pure, lift}
use components_contrib.State.Requests.{Bytes}
use components_contrib.Bindings.Messages.{Metadata, WriteRequest}
use components_contrib.Base.Text.Json.{json_field}

pub record SnsMetadata : Type 0 where
  pub topic_arn : String
  pub region : String
  pub access_key : String
  pub secret_key : String

-- `V` is the type of the values of JSON.
pub record DataPayload (V : Type 0) : Type 0 where
  pub message : V
  pub subject : V

-- `publish` takes the topic, the subject and the message.
pub record Client (W : Type 0) : Type 0 where
  pub publish : String → String → String → Eff W (Unit {0})

-- The struct AWSSNS, initialised.
pub record AwsSns (W : Type 0) : Type 0 where
  pub client : Client W
  pub topic_arn : String

pub parse_metadata : Metadata → SnsMetadata
parse_metadata metadata = record {
  topic_arn = json_field metadata.properties "topicArn";
  region = json_field metadata.properties "region";
  access_key = json_field metadata.properties "accessKey";
  secret_key = json_field metadata.properties "secretKey";
}

module _ {W : Type 0} (new_session : String → String → String → Eff W (Client W)) where
  pub get_client : SnsMetadata → Eff W (Client W)
  get_client metadata = new_session metadata.region metadata.access_key metadata.secret_key

  pub init : Metadata → Eff W (AwsSns W)
  unfolding parse_metadata get_client
  init metadata = do
    let m = parse_metadata metadata
    client ← get_client m
    pure (record { client = client; topic_arn = m.topic_arn })

module _ {W V : Type 0} (unmarshal : Bytes → Result (DataPayload V)) (print : V → String) where
  pub write : AwsSns W → WriteRequest → Eff W (Unit {0})
  write a req = do
    payload ← lift (unmarshal req.payload)
    let msg = print payload.message
    let subject = print payload.subject
    a.client.publish a.topic_arn subject msg
