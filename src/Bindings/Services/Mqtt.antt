-- ===== src/Bindings/Services/Mqtt.antt =====
-- bindings/mqtt/mqtt.go. The client library, url.Parse, the generator of UUIDs and the wait for a
-- signal are parameters.
use components_contrib.Base.{
  ℕ, zero, suc, String, Bool, Option, none, some, ◌==◌, if◌then◌else◌, Error, created, Result, ok,
  err,
}
use components_contrib.Base.Effect.{Eff, ignore, ◌>>=◌, ◌>>◌, pure, fail, lift}
use components_contrib.Base.Text.{◌+s◌}
use components_contrib.State.Requests.{Bytes}
use components_contrib.Bindings.Messages.{Metadata, ReadResponse, WriteRequest, response}
use components_contrib.Base.Text.Json.{json_field}

pub record MqttMetadata : Type 0 where
  pub url : String
  pub topic : String

-- What url.Parse gives, as far as it is used.
pub record Url : Type 0 where
  pub host : String
  pub username : String
  pub password : String

pub record ClientOptions : Type 0 where
  pub broker : String
  pub username : String
  pub password : String
  pub client_id : String

-- The tokens of `publish` and `subscribe` are dropped. `wait_timeout` waits 3 seconds at most for the
-- connection and says whether it is settled; `token_error` is the error it then has.
pub record Client (W : Type 0) : Type 0 where
  pub connect : W → W
  pub wait_timeout : W → Bool × W
  pub token_error : W → Option Error
  pub publish : String → Bytes → W → W
  pub disconnect : W → W
  pub subscribe : String → (Bytes → Eff W (Unit {0})) → Eff W (Unit {0})

pub record Mqtt (W : Type 0) : Type 0 where
  pub client : Client W
  pub metadata : MqttMetadata

pub get_mqtt_metadata : Metadata → MqttMetadata
get_mqtt_metadata metadata = record {
  url = json_field metadata.properties "url";
  topic = json_field metadata.properties "topic";
}

pub create_client_options : String → Url → ClientOptions
create_client_options client_id uri = record {
  broker = "tcp://" +s uri.host;
  username = uri.username;
  password = uri.password;
  client_id = client_id;
}

-- `for !token.WaitTimeout(…) {}` for `fuel` rounds; `none` is that the connection is not settled.
pub await_token : {W : Type 0} → Client W → ℕ → W → Option (Option Error) × W
await_token client zero w = (none, w)
await_token client (suc fuel) w =
    let (settled, w') = client.wait_timeout w in
    let rest = await_token client fuel w' in
    if settled then (some (client.token_error w'), w') else rest

module _ {W : Type 0} (new_client : ClientOptions → Client W) (fuel : ℕ) where
  -- `none` is that the connection is still awaited.
  pub connect : String → Url → Eff W (Option (Client W))
  unfolding create_client_options await_token
  connect client_id uri w =
      let client = new_client (create_client_options client_id uri) in
      let (answer, w') = await_token client fuel (client.connect w) in
      elim answer [
        | none ↦ (ok none, w')
        | some none ↦ (ok (some client), w')
        | some (some e) ↦ (err e, w')
      ]

  pub init : (String → Result Url) → (W → String × W) → Metadata → Eff W (Option (Mqtt W))
  unfolding get_mqtt_metadata connect
  init parse_url new_uuid metadata =
      let m = get_mqtt_metadata metadata in
      if m.url == ""
      then fail (created "MQTT Error: URL required")
      else if m.topic == ""
      then fail (created "MQTT error: topic required")
      else lift (parse_url m.url) >>= λ uri w.
          let (client_id, w') = new_uuid w in
          (connect client_id uri >>= λ client.
          pure (elim client [ none ↦ none | some c ↦ some (record { client = c; metadata = m }) ]))
            w'

module _ {W : Type 0} (m : Mqtt W) where
  -- The message is given to the client, which is then disconnected at once.
  pub write : WriteRequest → Eff W (Unit {0})
  write req w = (ok tt, m.client.disconnect (m.client.publish m.metadata.topic req.payload w))

  -- The errors of the handler are dropped.
  pub read : (W → W) → (ReadResponse → Eff W (Unit {0})) → Eff W (Unit {0})
  read until_signal handler = do
    ignore (m.client.subscribe m.metadata.topic λ payload. ignore (handler (response payload)))
    λ w. (ok tt, until_signal w)
