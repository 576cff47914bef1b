-- ===== src/Pubsub/Envelope.antt =====
-- pubsub/envelope.go: the envelope of Cloud Events. `J` is the type of decoded JSON; the JSON codec is
-- a parameter.
use components_contrib.Base.{
  String, ◌≡◌, refl, ◌≢◌, ◌↔◌, inl, inr, Option, none, some, arith, eq_iff, ◌==◌, if◌then◌else◌,
  Bool-cases, Option-cases,
}
use components_contrib.State.Requests.{Bytes}

-- The Data field: what the payload decodes to, or the payload as text.
pub data Payload (J : Type 0) : Type 0 where
  decoded : J → Payload J
  plain : String → Payload J

pub record CloudEventsEnvelope (J : Type 0) : Type 0 where
  pub id : String
  pub source : String
  pub event_type : String
  pub spec_version : String
  pub data_content_type : String
  pub payload : Payload J

abbrev pub default_event_type : String
default_event_type = "com.dapr.event.sent"

module _ {J : Type 0} (unmarshal : Bytes → Option J) where
  pub new_cloud_events_envelope : String → String → String → Bytes → CloudEventsEnvelope J
  new_cloud_events_envelope id source event_type payload =
      let kind = if event_type == "" then default_event_type else event_type in
      let contents : Payload J × String = elim (unmarshal payload) [
        | none ↦ (plain payload, "text/plain")
        | some i ↦ (decoded i, "application/json")
      ] in
      record {
        id = id;
        source = source;
        event_type = kind;
        spec_version = "0.3";
        data_content_type = contents.1;
        payload = contents.0;
      }

  -- The bytes that a payload stands for, with a codec that writes JSON.
  abbrev pub payload_bytes : (J → Bytes) → Payload J → Bytes
  payload_bytes marshal (decoded j) = marshal j
  payload_bytes marshal (plain t) = t

  -- With a codec that reads and writes the same bytes, nothing of the data is lost in an envelope: the
  -- content type is JSON exactly if the data can be read as JSON, and is plain text otherwise, and the
  -- payload stands for the bytes that were given.
  new_cloud_events_envelope_keeps :
      (marshal : J → Bytes) (id source event_type : String) (payload : Bytes)
      → ((j : J) → unmarshal payload ≡ some j → marshal j ≡ payload)
      → let e = new_cloud_events_envelope id source event_type payload in
        (payload_bytes marshal e.payload ≡ payload)
        × ((e.data_content_type ≡ "text/plain") ↔ (unmarshal payload ≡ none))
        × (e.event_type ≢ "")
  unfolding new_cloud_events_envelope
  new_cloud_events_envelope_keeps marshal id source event_type payload same =
      let named : (if event_type == "" then default_event_type else event_type) ≢ "" =
        elim (Bool-cases (event_type == "")) [
          | inl e ↦ rw e (λ p. cc)
          | inr e ↦ rw e (ground (arith, eq_iff event_type "", e))
        ] in
      elim (Option-cases (unmarshal payload)) [
        | inl e ↦ rw e (refl, (λ _. refl, λ _. refl), named)
        | inr (j, e) ↦ rw e (same j e, (λ p. cc, λ p. cc), named)
      ]
