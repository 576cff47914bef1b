-- ===== src/Bindings/Sqs.antt =====
-- bindings/sqs/sqs.go: the AWS SQS binding. The client library is a parameter.
pub mod Deletion
use components_contrib.Base.{
  ℕ, zero, suc, String, Option, none, some, List, Error, nil_dereference, ok,
}
use components_contrib.Base.Effect.{Eff, settle, ignore, ◌>>=◌, ◌>>◌, pure, crash, for_each}
use components_contrib.Base.Signed.{Duration}
use components_contrib.State.Requests.{Bytes}
use components_contrib.Bindings.Messages.{Metadata, ReadResponse, WriteRequest, response}
use components_contrib.Base.Text.Json.{json_field}

pub record SqsMetadata : Type 0 where
  pub queue_name : String
  pub region : String
  pub access_key : String
  pub secret_key : String

-- A message: its body, which may be nil, and its receipt handle.
pub record Message : Type 0 where
  pub body : Option Bytes
  pub receipt_handle : String

-- ReceiveMessage gives its output also with an error; the result of DeleteMessage is dropped.
pub record Client (W : Type 0) : Type 0 where
  pub get_queue_url : String → Eff W String
  pub send_message : String → String → Eff W (Unit {0})
  pub receive_message : String → W → (List Message × Option Error) × W
  pub delete_message : String → String → Eff W (Unit {0})

-- The struct AWSSQS, initialised.
pub record AwsSqs (W : Type 0) : Type 0 where
  pub client : Client W
  pub queue_url : String

pub parse_sqs_metadata : Metadata → SqsMetadata
parse_sqs_metadata metadata =
    let p = metadata.properties in
    record {
      queue_name = json_field p "queueName";
      region = json_field p "region";
      access_key = json_field p "accessKey";
      secret_key = json_field p "secretKey";
    }

-- `new_session` takes the region and the keys.
module _ {W : Type 0} (new_session : String → String → String → Eff W (Client W)) where
  pub get_client : SqsMetadata → Eff W (Client W)
  get_client metadata = new_session metadata.region metadata.access_key metadata.secret_key

  pub init : Metadata → Eff W (AwsSqs W)
  unfolding parse_sqs_metadata get_client
  init metadata = do
    let m = parse_sqs_metadata metadata
    client ← get_client m
    queue_url ← client.get_queue_url m.queue_name
    pure (record { client = client; queue_url = queue_url })

module _ {W : Type 0} (a : AwsSqs W) where
  pub write : WriteRequest → Eff W (Unit {0})
  write req = a.client.send_message a.queue_url req.payload

  module _ (handler : ReadResponse → Eff W (Unit {0})) where
    -- One message: deleted exactly if its handler gives no error.
    pub consume_message : Message → Eff W (Unit {0})
    consume_message m = elim m.body [
      | none ↦ crash nil_dereference
      | some body ↦
          settle (handler (response body))
            (ignore (a.client.delete_message a.queue_url m.receipt_handle)) (pure tt)
    ]

    -- One round of the loop of Read, up to its pause. An error of the receipt is logged.
    pub read_round : Eff W (Unit {0})
    unfolding consume_message
    read_round w =
        let (output, w') = a.client.receive_message a.queue_url w in
        for_each consume_message output.0 w'

    -- The loop of Read, which never ends by itself, for `fuel` rounds with a pause of 50 ms behind each.
    pub read : (Duration → W → W) → ℕ → Eff W (Unit {0})
    unfolding read_round
    read sleep zero = pure tt
    read sleep (suc fuel) = do read_round; λ w. (ok tt, sleep 50000000 w); read sleep fuel
