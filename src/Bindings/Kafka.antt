-- ===== src/Bindings/Kafka.antt =====
-- bindings/kafka/kafka.go: the Kafka binding. The client library is a parameter.
pub mod Credentials
pub mod Marks
pub mod Sessions
mod Tests
use components_contrib.Base.{
  ℕ, String, Bool, true, false, Option, none, some, List, [], ◌==◌, if◌then◌else◌, created, Result,
  ok, err, then_result,
}
use components_contrib.Base.Effect.{Eff, settle, ◌>>=◌, ◌>>◌, pure, lift, for_each}
use components_contrib.Base.Text.{split, parse_bool}
use components_contrib.State.Requests.{Bytes, Properties, lookup, present, value_of}
use components_contrib.Bindings.Messages.{Metadata, ReadResponse, WriteRequest, response}

pub record KafkaMetadata : Type 0 where
  pub brokers : List String
  pub topics : List String
  pub publish_topic : String
  pub consumer_group : String
  pub auth_required : Bool
  pub sasl_username : String
  pub sasl_password : String

-- `SyncProducer.SendMessage`, by topic and value.
pub record Producer (W : Type 0) : Type 0 where
  pub send_message : String → Bytes → Eff W (Unit {0})

-- The struct Kafka, initialised.
pub record Kafka (W : Type 0) : Type 0 where
  pub producer : Producer W
  pub topics : List String
  pub consumer_group : String
  pub brokers : List String
  pub publish_topic : String
  pub auth_required : Bool
  pub sasl_username : String
  pub sasl_password : String

-- A message of a claim, with its offset.
pub record Message : Type 0 where
  pub offset : ℕ
  pub value : Bytes

abbrev pub list_of : Option String → List String
list_of none = []
list_of (some val) = split b',' val

pub auth_required_of : Option String → Result Bool
auth_required_of none = err (created "kafka error: missing 'authRequired' attribute")
auth_required_of (some val) =
    if val == ""
    then err (created "kafka error: 'authRequired' attribute was empty")
    else elim (parse_bool val) [
      | none ↦ err (created "kafka error: invalid value for 'authRequired' attribute")
      | some b ↦ ok b
    ]

-- The user name and the password, which are read only if they are required.
pub sasl_of : Properties → Bool → Result (String × String)
sasl_of p false = ok ("", "")
sasl_of p true = elim (present p "saslUsername") [
  | none ↦ err (created "kafka error: missing SASL Username")
  | some username ↦ elim (present p "saslPassword") [
    | none ↦ err (created "kafka error: missing SASL Password")
    | some password ↦ ok (username, password)
  ]
]

abbrev pub with_credentials : Properties → Bool → String × String → KafkaMetadata
with_credentials p auth_required (username, password) = record {
  brokers = list_of (present p "brokers");
  topics = list_of (present p "topics");
  publish_topic = value_of p "publishTopic";
  consumer_group = value_of p "consumerGroup";
  auth_required = auth_required;
  sasl_username = username;
  sasl_password = password;
}

pub get_kafka_metadata : Metadata → Result KafkaMetadata
unfolding auth_required_of sasl_of
get_kafka_metadata metadata =
    let p = metadata.properties in
    then_result (auth_required_of (lookup p "authRequired")) λ auth_required.
      then_result (sasl_of p auth_required) λ sasl. ok (with_credentials p auth_required sasl)

-- What the binding sets of a sarama.Config; `sasl` is the user and the password where SASL and TLS are
-- enabled.
pub record Config : Type 0 where
  pub waits_for_all : Bool
  pub retry_max : Option ℕ
  pub returns_successes : Bool
  pub sasl : Option (String × String)

-- `sarama.NewConfig()`, as far as it is changed: `none` is the library's own choice.
abbrev pub new_config : Config
new_config = record {
  waits_for_all = false;
  retry_max = none;
  returns_successes = false;
  sasl = none;
}

pub update_auth_info : Config → String → String → Config
update_auth_info config sasl_username sasl_password = record {
  waits_for_all = config.waits_for_all;
  retry_max = config.retry_max;
  returns_successes = config.returns_successes;
  sasl = some (sasl_username, sasl_password);
}

-- The settings of the producer, and those of the consumer group that Read makes.
pub producer_config : KafkaMetadata → Config
unfolding update_auth_info
producer_config meta =
    let config : Config = record {
      waits_for_all = true;
      retry_max = some 5;
      returns_successes = true;
      sasl = none;
    } in
    if meta.auth_required
    then update_auth_info config meta.sasl_username meta.sasl_password
    else config

pub group_config : {W : Type 0} → Kafka W → Config
unfolding update_auth_info
group_config k =
    if k.auth_required
    then update_auth_info new_config k.sasl_username k.sasl_password
    else new_config

-- `new_sync_producer` takes the brokers and the settings.
module _ {W : Type 0} (new_sync_producer : List String → Config → Eff W (Producer W)) where
  pub get_sync_producer : KafkaMetadata → Eff W (Producer W)
  unfolding producer_config
  get_sync_producer meta = new_sync_producer meta.brokers (producer_config meta)

  pub init : Metadata → Eff W (Kafka W)
  unfolding get_kafka_metadata get_sync_producer
  init metadata = do
    meta ← lift (get_kafka_metadata metadata)
    producer ← get_sync_producer meta
    pure (record {
      producer = producer;
      topics = meta.topics;
      consumer_group = meta.consumer_group;
      brokers = meta.brokers;
      publish_topic = meta.publish_topic;
      auth_required = meta.auth_required;
      sasl_username = if meta.auth_required then meta.sasl_username else "";
      sasl_password = if meta.auth_required then meta.sasl_password else "";
    })

pub write : {W : Type 0} → Kafka W → WriteRequest → Eff W (Unit {0})
write k req = k.producer.send_message k.publish_topic req.payload

module _ {W : Type 0} (mark_message : Message → W → W)
    (callback : Option (ReadResponse → Eff W (Unit {0}))) where
  -- One message of a claim: marked exactly if there is a callback and it gives no error.
  pub consume_message : Message → Eff W (Unit {0})
  consume_message message = elim callback [
    | none ↦ pure tt
    | some f ↦ settle (f (response message.value)) (λ w. (ok tt, mark_message message w)) (pure tt)
  ]

  pub consume_claim : List Message → Eff W (Unit {0})
  unfolding consume_message
  consume_claim = for_each consume_message
