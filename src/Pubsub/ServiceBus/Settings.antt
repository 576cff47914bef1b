-- ===== src/Pubsub/ServiceBus/Settings.antt =====
-- Init of pubsub/azureservicebus/azureservicebus.go and what it reads from the metadata.
use components_contrib.Base.{
  String, Bool, false, Option, none, some, [], ◌∷◌, Error, formatted, Result, ok, err, then_result,
}
use components_contrib.Base.Effect.{Eff, ◌>>=◌, pure, lift}
use components_contrib.Base.Signed.{ℤ, pos}
use components_contrib.Base.Text.{parse_bool}
use components_contrib.Base.Text.Decimal.{atoi}
use components_contrib.State.Requests.{Properties, present}
use components_contrib.Pubsub.Messages.{Metadata}
use components_contrib.Pubsub.ServiceBus.{ServiceBusMetadata, Namespace, prefix}

abbrev invalid : String → String → Error
invalid field val = formatted "%s invalid %s %s, %s" (prefix ∷ field ∷ val ∷ [])

-- An optional number of the metadata; `none` leaves it to the server.
pub optional_number : Properties → String → String → Result (Option ℤ)
optional_number properties field shown = elim (present properties field) [
  | none ↦ ok none
  | some val ↦ elim (atoi val) [ none ↦ err (invalid shown val) | some n ↦ ok (some n) ]
]

pub timeout_of : Properties → Result ℤ
timeout_of properties = elim (present properties "timeoutInSec") [
  | none ↦ ok (pos 60)
  | some val ↦ elim (atoi val) [ none ↦ err (invalid "timeoutInSec" val) | some n ↦ ok n ]
]

pub management_of : Properties → Result Bool
management_of properties = elim (present properties "disableEntityManagement") [
  | none ↦ ok false
  | some val ↦ elim (parse_bool val) [
    | none ↦ err (invalid "disableEntityManagement" val)
    | some b ↦ ok b
  ]
]

pub parse_metadata : Metadata → Result ServiceBusMetadata
unfolding optional_number timeout_of management_of
parse_metadata meta =
    let p = meta.properties in
    elim (present p "connectionString") [
      | none ↦ err (formatted "%s missing connection string" (prefix ∷ []))
      | some connection_string ↦ elim (present p "consumerID") [
        | none ↦ err (formatted "%s missing consumerID" (prefix ∷ []))
        | some consumer_id ↦ then_result (timeout_of p) λ timeout.
            then_result (management_of p) λ disabled.
              then_result (optional_number p "maxDeliveryCount" "maxDeliveryCount")
                λ max_delivery_count.
                  then_result (optional_number p "lockDurationInSec" "lockDurationInSec")
                    λ lock_duration.
                      then_result
                        (optional_number p "defaultMessageTimeToLiveInSec"
                          "defaultMessageTimeToLiveInSec")
                        λ time_to_live.
                          then_result
                            (optional_number p "autoDeleteOnIdleInSec" "autoDeleteOnIdleInSecKey")
                            λ auto_delete. ok (record {
                              connection_string = connection_string;
                              consumer_id = consumer_id;
                              timeout_in_sec = timeout;
                              disable_entity_management = disabled;
                              max_delivery_count = max_delivery_count;
                              lock_duration_in_sec = lock_duration;
                              default_message_time_to_live_in_sec = time_to_live;
                              auto_delete_on_idle_in_sec = auto_delete;
                            })
      ]
    ]

module _ {W : Type 0} (new_namespace : String → Eff W (Namespace W)) where
  pub init : Metadata → Eff W (ServiceBusMetadata × Namespace W)
  unfolding parse_metadata
  init metadata = do
    m ← lift (parse_metadata metadata)
    namespace ← new_namespace m.connection_string
    pure (m, namespace)
