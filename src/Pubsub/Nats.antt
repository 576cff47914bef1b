-- ===== src/Pubsub/Nats.antt =====
-- pubsub/nats/nats.go: publish and subscribe over NATS. The client is a parameter.
use components_contrib.Base.{
  String, none, some, [], ◌∷◌, created, wrapped, nil_dereference, Result, ok, err,
}
use components_contrib.Base.Effect.{Eff, ◌>>=◌, pure, fail, crash, lift, on_error}
use components_contrib.State.Requests.{Bytes, present}
use components_contrib.Pubsub.Messages.{Metadata, PublishRequest, SubscribeRequest, NewMessage}

-- The struct metadata of pubsub/nats/metadata.go.
pub record NatsMetadata : Type 0 where
  pub nats_url : String
  pub nats_queue_group_name : String

-- `subscribe` gives no subscription together with an error; the callback gets the data of a message.
pub record Conn (W : Type 0) : Type 0 where
  pub publish : String → Bytes → Eff W (Unit {0})
  pub queue_subscribe : String → String → (Bytes → Eff W (Unit {0})) → Eff W (Unit {0})

pub parse_nats_metadata : Metadata → Result NatsMetadata
parse_nats_metadata meta = elim (present meta.properties "natsURL") [
  | none ↦ err (created "nats error: missing nats URL")
  | some url ↦ elim (present meta.properties "consumerID") [
    | none ↦ err (created "nats error: missing queue name")
    | some name ↦ ok (record { nats_url = url; nats_queue_group_name = name })
  ]
]

module _ {W : Type 0} (connect : String → Eff W (Conn W)) where
  pub init : Metadata → Eff W (NatsMetadata × Conn W)
  unfolding parse_nats_metadata
  init metadata = do
    m ← lift (parse_nats_metadata metadata)
    conn ←
        on_error (connect m.nats_url)
          (λ e. fail (wrapped "nats: error connecting to nats at %s: %s" (m.nats_url ∷ []) e))
    pure (m, conn)

module _ {W : Type 0} (metadata : NatsMetadata) (conn : Conn W) where
  pub publish : PublishRequest → Eff W (Unit {0})
  publish req =
      on_error (conn.publish req.topic req.payload)
        (λ e. fail (wrapped "nats: error from publish: %s" [] e))

  -- The callback drops the handler's error.
  pub deliver : String → (NewMessage → Eff W (Unit {0})) → Bytes → Eff W (Unit {0})
  deliver topic handler payload =
      on_error (handler (record { payload = payload; topic = topic })) (λ e. pure tt)

  -- An error of the subscription is logged, and then the subject of the nil subscription is read.
  pub subscribe : SubscribeRequest → (NewMessage → Eff W (Unit {0})) → Eff W (Unit {0})
  unfolding deliver
  subscribe req handler =
      on_error
        (conn.queue_subscribe req.topic metadata.nats_queue_group_name (deliver req.topic handler))
        (λ e. crash nil_dereference)
