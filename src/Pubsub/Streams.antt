-- ===== src/Pubsub/Streams.antt =====
-- pubsub/redis/redis.go: publish and subscribe over Redis streams. The client is a parameter.
pub mod Acknowledgement
use components_contrib.Base.{
  ℕ, zero, suc, ◌%◌, String, Bool, false, none, some, List, [], ◌∷◌, created, wrapped, external,
  failed_type_assertion, Result, ok, err, panic, then_result,
}
use components_contrib.Base.Effect.{Eff, settle, ◌>>=◌, ◌>>◌, pure, fail, lift, on_error, for_each}
use components_contrib.Base.Text.{parse_bool}
use components_contrib.State.Requests.{Bytes, present, value_of}
use components_contrib.Pubsub.Messages.{Metadata, PublishRequest, SubscribeRequest, NewMessage}

-- The struct metadata of pubsub/redis/metadata.go.
pub record StreamsMetadata : Type 0 where
  pub host : String
  pub password : String
  pub consumer_id : String
  pub enable_tls : Bool

-- `m.Values["data"]`: no such key, nil, a string, or a value of another type.
pub data Field : Type 0 where
  missing nil_value : Field
  text : Bytes → Field
  not_text : Field

pub record Message : Type 0 where
  pub id : String
  pub data_field : Field

pub record Stream : Type 0 where
  pub name : String
  pub messages : List Message

pub record Client (W : Type 0) : Type 0 where
  pub ping : Eff W (Unit {0})
  pub add : String → Bytes → Eff W (Unit {0})
  pub create_group : String → String → String → Eff W (Unit {0})
  pub read_group : String → String → String → String → Eff W (List Stream)
  pub acknowledge : String → String → String → W → W

pub parse_redis_metadata : Metadata → Result StreamsMetadata
parse_redis_metadata meta =
    let p = present meta.properties in
    elim (p "redisHost") [
      | none ↦ err (created "redis streams error: missing host address")
      | some host ↦
          then_result
            (elim (p "enableTLS") [
              | none ↦ ok false
              | some val ↦ elim (parse_bool val) [
                | none ↦ err (
                    wrapped "redis streams error: can't parse enableTLS field: %s" []
                      (external "strconv.ParseBool"))
                | some tls ↦ ok tls
              ]
            ])
            λ tls. elim (p "consumerID") [
              | none ↦ err (created "redis streams error: missing consumerID")
              | some consumer_id ↦ ok (record {
                host = host;
                password = value_of meta.properties "redisPassword";
                consumer_id = consumer_id;
                enable_tls = tls;
              })
            ]
    ]

-- The message that the handler gets; a value that is not a string makes the type assertion panic.
unfoldable pub new_message : String → Message → Result NewMessage
new_message topic m = elim m.data_field [
  | text payload ↦ ok (record { payload = payload; topic = topic })
  | not_text ↦ panic failed_type_assertion
  | _ ↦ ok (record { payload = ""; topic = topic })
]

module _ {W : Type 0} (new_client : StreamsMetadata → W → Client W × W) where
  pub init : Metadata → Eff W (StreamsMetadata × Client W)
  unfolding parse_redis_metadata
  init metadata = do
    m ← lift (parse_redis_metadata metadata)
    client ← λ w. (ok (new_client m w).0, (new_client m w).1)
    on_error client.ping
        (λ e. fail (wrapped "redis streams: error connecting to redis at %s: %s" (m.host ∷ []) e))
    pure (m, client)

module _ {W : Type 0} (client : Client W) where
  pub publish : PublishRequest → Eff W (Unit {0})
  publish req =
      on_error (client.add req.topic req.payload)
        (λ e. fail (wrapped "redis streams: error from publish: %s" [] e))

  -- `readFromStream`
  abbrev read_from_stream : String → String → String → Eff W (List Stream)
  read_from_stream stream consumer_id start = client.read_group consumer_id consumer_id stream start

  module _ (consumer_id : String) (handler : NewMessage → Eff W (Unit {0})) where
    -- `err := handler(&msg); if err == nil { XAck }`
    pub deliver : String → Message → NewMessage → Eff W (Unit {0})
    deliver stream m msg =
        settle (handler msg) (λ w. (ok tt, client.acknowledge stream consumer_id m.id w)) (pure tt)

    pub process_message : String → Message → Eff W (Unit {0})
    unfolding new_message deliver
    process_message stream m = do msg ← lift (new_message stream m); deliver stream m msg

    pub process_streams : List Stream → Eff W (Unit {0})
    unfolding process_message
    process_streams = for_each λ s. for_each (process_message s.name) s.messages

    -- The loop of beginReadingFromStream, for at most `fuel` rounds: `ok` where the rounds are used up,
    -- with where the next one starts; the error that ended the loop otherwise.
    pub begin_reading : ℕ → String → String → Eff W String
    unfolding process_streams
    begin_reading zero stream start = pure start
    begin_reading (suc fuel) stream start = do
      streams ← read_from_stream stream consumer_id start
      process_streams streams
      begin_reading fuel stream ">"

    -- Subscribe makes the group; that there is one already is only logged. The loop runs beside it.
    pub subscribe : SubscribeRequest → W → Result (Unit {0}) × W
    subscribe req w = (ok tt, (client.create_group req.topic consumer_id "0" w).1)
