-- ===== src/Bindings/GcpPubsub.antt =====
-- bindings/pubsub/pubsub.go: the GCP Pub/Sub binding. The client library, and the Marshal that writes
-- the credentials, are parameters.
use components_contrib.Base.{String, none, some, [], ◌∷◌, wrapped, Result, ok}
use components_contrib.Base.Effect.{Eff, settle, ◌>>=◌, pure, fail, lift, on_error}
use components_contrib.State.Requests.{Bytes, Properties, present}
use components_contrib.Bindings.Messages.{Metadata, ReadResponse, WriteRequest}
use components_contrib.Base.Text.Json.{json_field}

-- The fields of the struct pubSubMetadata that the binding reads.
pub record PubsubMetadata : Type 0 where
  pub topic : String
  pub subscription : String
  pub project_id : String

-- A message of a subscription; `published` is its publish time as a text.
pub record Message (W : Type 0) : Type 0 where
  pub id : String
  pub payload : Bytes
  pub published : String
  pub ack : W → W

-- `receive` calls the function for the messages of a subscription; `publish` waits for the answer.
pub record Client (W : Type 0) : Type 0 where
  pub receive : String → (Message W → Eff W (Unit {0})) → Eff W (Unit {0})
  pub publish : String → Bytes → Eff W (Unit {0})

-- The struct GCPPubSub, initialised.
pub record GcpPubsub (W : Type 0) : Type 0 where
  pub client : Client W
  pub metadata : PubsubMetadata

module _ {W : Type 0} (new_client : String → Bytes → Eff W (Client W))
    (marshal : Properties → Result Bytes) where
  -- `parseMetadata`
  pub parse_metadata : Metadata → Result Bytes
  parse_metadata metadata = marshal metadata.properties

  pub init : Metadata → Eff W (GcpPubsub W)
  unfolding parse_metadata
  init metadata = do
    b ← lift (parse_metadata metadata)
    let p = metadata.properties
    client ←
        on_error (new_client (json_field p "project_id") b)
          (λ e. fail (wrapped "error creating pubsub client: %s" [] e))
    pure (record {
      client = client;
      metadata = record {
        topic = json_field p "topic";
        subscription = json_field p "subscription";
        project_id = json_field p "project_id";
      };
    })

module _ {W : Type 0} (g : GcpPubsub W) where
  module _ (handler : ReadResponse → Eff W (Unit {0})) where
    -- The function of Receive: a message is acknowledged exactly if its handler gives no error.
    pub consume_message : Message W → Eff W (Unit {0})
    consume_message m =
        settle
          (handler (record {
            payload = m.payload;
            metadata = ("id", m.id) ∷ ("publishTime", m.published) ∷ [];
          }))
          (λ w. (ok tt, m.ack w)) (pure tt)

    pub read : Eff W (Unit {0})
    unfolding consume_message
    read = g.client.receive g.metadata.subscription consume_message

  -- The topic of a request, or that of the binding.
  pub topic_of : WriteRequest → String
  topic_of req = elim (present req.metadata "topic") [ none ↦ g.metadata.topic | some val ↦ val ]

  pub write : WriteRequest → Eff W (Unit {0})
  unfolding topic_of
  write req = g.client.publish (topic_of req) req.payload
