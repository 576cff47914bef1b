-- ===== src/Bindings/ServiceBusQueues.antt =====
-- bindings/servicebusqueues/servicebusqueues.go: the binding to queues of Azure Service Bus. The client
-- library is a parameter.
pub mod Settlement
use components_contrib.Base.{String, [], ◌∷◌}
use components_contrib.Base.Effect.{Eff, settle}
use components_contrib.State.Requests.{Bytes, value_of}
use components_contrib.Bindings.Messages.{Metadata, ReadResponse, WriteRequest}
use components_contrib.Base.Text.Json.{json_field}

pub record ServiceBusQueuesMetadata : Type 0 where
  pub connection_string : String
  pub queue_name : String

-- What a message is sent with; an empty text leaves the choice to the library.
pub record Outgoing : Type 0 where
  pub payload : Bytes
  pub id : String
  pub correlation_id : String

-- A message of a queue, which can be given up or completed.
pub record Incoming (W : Type 0) : Type 0 where
  pub payload : Bytes
  pub id : String
  pub correlation_id : String
  pub label : String
  pub abandon : Eff W (Unit {0})
  pub complete : Eff W (Unit {0})

pub record Queue (W : Type 0) : Type 0 where
  pub send : Outgoing → Eff W (Unit {0})
  pub receive : (Incoming W → Eff W (Unit {0})) → Eff W (Unit {0})

pub parse_metadata : Metadata → ServiceBusQueuesMetadata
parse_metadata metadata = record {
  connection_string = json_field metadata.properties "connectionString";
  queue_name = json_field metadata.properties "queueName";
}

-- `new_queue` is NewNamespace with NewQueue.
module _ {W : Type 0} (new_queue : String → String → Eff W (Queue W)) where
  pub init : Metadata → Eff W (Queue W)
  unfolding parse_metadata
  init metadata =
      let meta = parse_metadata metadata in new_queue meta.connection_string meta.queue_name

pub outgoing : WriteRequest → Outgoing
outgoing req = record {
  payload = req.payload;
  id = value_of req.metadata "id";
  correlation_id = value_of req.metadata "correlationID";
}

-- What a message is read as.
abbrev pub incoming_response : {W : Type 0} → Incoming W → ReadResponse
incoming_response msg = record {
  payload = msg.payload;
  metadata = ("id", msg.id) ∷ ("correlationID", msg.correlation_id) ∷ ("label", msg.label) ∷ [];
}

module _ {W : Type 0} (client : Queue W) where
  pub write : WriteRequest → Eff W (Unit {0})
  unfolding outgoing
  write req = client.send (outgoing req)

  module _ (handler : ReadResponse → Eff W (Unit {0})) where
    -- `sbHandler`: a message is completed exactly if its handler gives no error, and else given up.
    pub consume_message : Incoming W → Eff W (Unit {0})
    consume_message msg = settle (handler (incoming_response msg)) msg.complete msg.abandon

    pub read : Eff W (Unit {0})
    unfolding consume_message
    read = client.receive consume_message
