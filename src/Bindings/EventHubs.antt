-- ===== src/Bindings/EventHubs.antt =====
-- bindings/eventhubs/eventhubs.go: the binding to Azure Event Hubs. The client library, the clock,
-- time.ParseDuration and the wait for a signal are parameters.
pub mod Age
use components_contrib.Base.{
  ℕ, ◌-◌, ◌^◌, String, Bool, true, false, Option, none, some, List, ltb, leb, ◌==◌, if◌then◌else◌,
  nil_dereference, Result, ok, err, panic,
}
use components_contrib.Base.Effect.{Eff, ignore, ◌>>=◌, ◌>>◌, pure, crash, for_each}
use components_contrib.Base.Signed.{ℤ, pos, negsuc, Duration}
use components_contrib.State.Requests.{Bytes}
use components_contrib.Bindings.Messages.{Metadata, ReadResponse, WriteRequest, response}
use components_contrib.Base.Text.Json.{json_field}
use components_contrib.Base.Signed.{of_bits}

pub record EventHubsMetadata : Type 0 where
  pub connection_string : String
  pub consumer_group : String
  pub message_age : String

-- `enqueued_time` is in nanoseconds of the clock.
pub record SystemProperties : Type 0 where
  pub enqueued_time : Option ℕ

pub record Event : Type 0 where
  pub payload : Bytes
  pub system_properties : Option SystemProperties

-- `receive` starts a receiver of a partition, for a consumer group unless it is `none`.
pub record Hub (W : Type 0) : Type 0 where
  pub send : Bytes → Eff W (Unit {0})
  pub partitions : Eff W (List String)
  pub receive : String → (Option Event → Eff W (Unit {0})) → Option String → Eff W (Unit {0})
  pub close : W → W

pub record AzureEventHubs (W : Type 0) : Type 0 where
  pub hub : Hub W
  pub metadata : EventHubsMetadata

pub parse_metadata : Metadata → EventHubsMetadata
parse_metadata metadata = record {
  connection_string = json_field metadata.properties "connectionString";
  consumer_group = json_field metadata.properties "consumerGroup";
  message_age = json_field metadata.properties "messageAge";
}

module _ {W : Type 0} (new_hub : String → Eff W (Hub W)) where
  pub init : Metadata → Eff W (AzureEventHubs W)
  unfolding parse_metadata
  init metadata = do
    let m = parse_metadata metadata
    hub ← new_hub m.connection_string
    pure (record { hub = hub; metadata = m })

-- `now.Sub(t)`, kept within an int64.
unfoldable pub elapsed : ℕ → ℕ → ℤ
elapsed now t =
    if leb t now
    then (if ltb (now - t) (2 ^ 63) then pos (now - t) else pos (2 ^ 63 - 1))
    else if leb (t - now) (2 ^ 63)
    then negsuc (t - now - 1)
    else negsuc (2 ^ 63 - 1)

-- `x > y`
abbrev pub exceeds : ℤ → ℤ → Bool
exceeds (pos m) (pos n) = ltb n m
exceeds (pos m) (negsuc n) = true
exceeds (negsuc m) (pos n) = false
exceeds (negsuc m) (negsuc n) = ltb m n

module _ {W : Type 0} (parse_duration : String → Result Duration) (now : W → ℕ)
    (a : AzureEventHubs W) where
  pub write : WriteRequest → Eff W (Unit {0})
  write req = a.hub.send req.payload

  module _ (handler : ReadResponse → Eff W (Unit {0})) where
    abbrev deliver : Event → Eff W (Unit {0})
    deliver event = ignore (handler (response event.payload))

    -- An event of an age is dropped when it is older, and when the age allowed cannot be read.
    abbrev pub deliver_unless_old : Event → ℕ → Eff W (Unit {0})
    deliver_unless_old event enq_time w = elim (parse_duration a.metadata.message_age) [
      | ok d ↦
          if exceeds (elapsed (now w) enq_time) (of_bits 64 d) then (ok tt, w) else deliver event w
      | err e ↦ (ok tt, w)
      | panic p ↦ (panic p, w)
    ]

    abbrev enqueued_at : Event → Option ℕ
    enqueued_at event = elim event.system_properties [ none ↦ none | some s ↦ s.enqueued_time ]

    -- `callback`. With an age allowed, the event is read before it is compared with nil.
    pub callback : Option Event → Eff W (Unit {0})
    unfolding elapsed
    callback none = if a.metadata.message_age == "" then pure tt else crash nil_dereference
    callback (some event) =
        if a.metadata.message_age == "" then deliver event else elim (enqueued_at event) [
          | none ↦ deliver event
          | some enq_time ↦ deliver_unless_old event enq_time
        ]

    abbrev group_of : Option String
    group_of = if a.metadata.consumer_group == "" then none else some a.metadata.consumer_group

    -- The hub is closed after the signal, and not when a receiver fails.
    pub read : (W → W) → Eff W (Unit {0})
    unfolding callback
    read until_signal = do
      partition_ids ← a.hub.partitions
      for_each (λ partition_id. a.hub.receive partition_id callback group_of) partition_ids
      λ w. (ok tt, a.hub.close (until_signal w))
