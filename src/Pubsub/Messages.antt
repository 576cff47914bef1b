-- ===== src/Pubsub/Messages.antt =====
-- pubsub/requests.go and pubsub/metadata.go.
use components_contrib.Base.{String}
use components_contrib.State.Requests.{Bytes, Properties}

pub record Metadata : Type 0 where
  pub properties : Properties

pub record PublishRequest : Type 0 where
  pub payload : Bytes
  pub topic : String

pub record SubscribeRequest : Type 0 where
  pub topic : String

pub record NewMessage : Type 0 where
  pub payload : Bytes
  pub topic : String
