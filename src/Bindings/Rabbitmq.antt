-- ===== src/Bindings/Rabbitmq.antt =====
-- bindings/rabbitmq/rabbitmq.go: the RabbitMQ binding. The client library is a parameter.
use components_contrib.Base.{ℕ, String, Bool, true, List, Result, ok, then_result}
use components_contrib.Base.Effect.{Eff, settle, ignore, ◌>>=◌, pure, lift, for_each}
use components_contrib.State.Requests.{Bytes}
use components_contrib.Bindings.Messages.{Metadata, ReadResponse, WriteRequest, response}
use components_contrib.Base.Text.Json.{json_field, json_bool}

pub record RabbitmqMetadata : Type 0 where
  pub queue_name : String
  pub host : String
  pub durable : Bool
  pub delete_when_unused : Bool

pub record Delivery : Type 0 where
  pub body : Bytes
  pub delivery_tag : ℕ

-- A channel of a connection. The name that QueueDeclare gives may be one that the server chose.
pub record Channel (W : Type 0) : Type 0 where
  pub queue_declare : String → Bool → Bool → Eff W String
  pub publish : String → String → Bytes → Eff W (Unit {0})
  -- by the queue and whether the server takes a message for acknowledged when it is sent
  pub consume : String → Bool → Eff W (Unit {0})
  pub ack : ℕ → Eff W (Unit {0})

-- The struct RabbitMQ, initialised.
pub record Rabbitmq (W : Type 0) : Type 0 where
  pub channel : Channel W
  pub metadata : RabbitmqMetadata

pub get_rabbitmq_metadata : Metadata → Result RabbitmqMetadata
get_rabbitmq_metadata metadata =
    let p = metadata.properties in
    then_result (json_bool p "durable") λ durable.
      then_result (json_bool p "deleteWhenUnused") λ delete_when_unused. ok (record {
        queue_name = json_field p "queueName";
        host = json_field p "host";
        durable = durable;
        delete_when_unused = delete_when_unused;
      })

-- `dial` is Dial with Channel.
module _ {W : Type 0} (dial : String → Eff W (Channel W)) where
  pub init : Metadata → Eff W (Rabbitmq W)
  unfolding get_rabbitmq_metadata
  init metadata = do
    meta ← lift (get_rabbitmq_metadata metadata)
    channel ← dial meta.host
    pure (record { channel = channel; metadata = meta })

module _ {W : Type 0} (r : Rabbitmq W) where
  abbrev declare : Eff W String
  declare =
      r.channel.queue_declare r.metadata.queue_name r.metadata.durable r.metadata.delete_when_unused

  pub write : WriteRequest → Eff W (Unit {0})
  write req = do name ← declare; r.channel.publish name "text/plain" req.payload

  -- Read, up to the goroutine that it starts: the messages are acknowledged when they are sent.
  pub start_reading : Eff W (Unit {0})
  start_reading = do name ← declare; r.channel.consume name true

  module _ (handler : ReadResponse → Eff W (Unit {0})) where
    -- One message: acknowledged, once more, exactly if its handler gives no error.
    pub consume_delivery : Delivery → Eff W (Unit {0})
    consume_delivery d =
        settle (handler (response d.body)) (ignore (r.channel.ack d.delivery_tag)) (pure tt)

    pub consume_deliveries : List Delivery → Eff W (Unit {0})
    unfolding consume_delivery
    consume_deliveries = for_each consume_delivery
