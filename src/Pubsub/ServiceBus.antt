-- ===== src/Pubsub/ServiceBus.antt =====
-- pubsub/azureservicebus/azureservicebus.go: publish and subscribe over topics of Azure Service Bus.
-- The client library is a parameter. An initialised store has its topic manager.
pub mod Settings
pub mod Entities
mod Tests
use components_contrib.Base.{
  ℕ, zero, suc, ◌+◌, ◌%◌, String, Bool, true, false, not, Option, none, some, [], ◌∷◌,
  if◌then◌else◌, Error, formatted, wrapped, Result, ok, err,
}
use components_contrib.Base.Effect.{Eff, settle, ◌>>=◌, ◌>>◌, pure, fail, on_error}
use components_contrib.Base.Signed.{ℤ, to_int32}
use components_contrib.Base.Text.{◌+s◌}
use components_contrib.Base.Text.Decimal.{itoa}
use components_contrib.State.Requests.{Bytes}
use components_contrib.Pubsub.Messages.{PublishRequest, SubscribeRequest, NewMessage}

-- The struct metadata of pubsub/azureservicebus/metadata.go.
pub record ServiceBusMetadata : Type 0 where
  pub connection_string : String
  pub consumer_id : String
  pub timeout_in_sec : ℤ
  pub disable_entity_management : Bool
  pub max_delivery_count : Option ℤ
  pub lock_duration_in_sec : Option ℤ
  pub default_message_time_to_live_in_sec : Option ℤ
  pub auto_delete_on_idle_in_sec : Option ℤ

-- What the options set of `servicebus.SubscriptionDescription`; `none` where no option does.
pub record SubscriptionDescription : Type 0 where
  pub max_delivery_count : Option ℤ
  pub lock_duration : Option String
  pub default_message_time_to_live : Option String
  pub auto_delete_on_idle : Option String

-- What a manager gives for an entity: it is there, it is not (with or without a not-found error), or
-- another error.
pub data Found : Type 0 where
  entity absent : Found
  failed : Error → Found

-- A message of a subscription, which can be given up or completed.
pub record Incoming (W : Type 0) : Type 0 where
  pub payload : Bytes
  pub abandon : Eff W (Unit {0})
  pub complete : Eff W (Unit {0})

-- The calls take the seconds that they may last.
pub record Namespace (W : Type 0) : Type 0 where
  pub get_topic : ℤ → String → W → Found × W
  pub put_topic : ℤ → String → Eff W (Unit {0})
  pub new_subscription_manager : String → Eff W (Unit {0})
  pub get_subscription : ℤ → String → String → W → Found × W
  pub put_subscription : ℤ → String → String → SubscriptionDescription → Eff W (Unit {0})
  pub new_topic : String → Eff W (Unit {0})
  pub new_subscription : String → String → Eff W (Unit {0})
  pub send : ℤ → String → Bytes → Eff W (Unit {0})
  -- one call of Receive with the handler
  pub receive : (Incoming W → Eff W (Unit {0})) → Eff W (Unit {0})

abbrev pub prefix : String
prefix = "azure service bus error:"

-- The int that an option of the metadata gives as a number of seconds: `fmt.Sprintf("PT%dS", …)`.
pub seconds : ℤ → String
seconds n = "PT" +s itoa n +s "S"

abbrev map_option : {A B : Type 0} → (A → B) → Option A → Option B
map_option f none = none
map_option f (some a) = some (f a)

-- `createSubscriptionManagementOptions`, with what its options do to a new description.
unfoldable pub subscription_options : ServiceBusMetadata → SubscriptionDescription
unfolding seconds
subscription_options m = record {
  max_delivery_count = map_option to_int32 m.max_delivery_count;
  lock_duration = map_option seconds m.lock_duration_in_sec;
  default_message_time_to_live = map_option seconds m.default_message_time_to_live_in_sec;
  auto_delete_on_idle = map_option seconds m.auto_delete_on_idle_in_sec;
}

-- `if err != nil && !IsErrNotFound(err)`
abbrev pub found_answer : (Error → Error) → Found → Result Bool
found_answer g entity = ok true
found_answer g absent = ok false
found_answer g (failed e) = err (g e)

module _ {W : Type 0} (a : ServiceBusMetadata) (namespace : Namespace W) where
  -- Whether the topic is there.
  pub get_topic_entity : String → Eff W Bool
  get_topic_entity topic w =
      let (res, w') = namespace.get_topic a.timeout_in_sec topic w in
      (found_answer (wrapped "%s could not get topic %s, %s" (prefix ∷ topic ∷ [])) res, w')

  pub create_topic_entity : String → Eff W (Unit {0})
  create_topic_entity topic =
      on_error (namespace.put_topic a.timeout_in_sec topic)
        (λ e. fail (wrapped "%s could not put topic %s, %s" (prefix ∷ topic ∷ []) e))

  pub ensure_topic : String → Eff W (Unit {0})
  unfolding get_topic_entity create_topic_entity
  ensure_topic topic = do
    there ← get_topic_entity topic
    if there then pure tt else create_topic_entity topic

  pub get_subscription_entity : String → String → Eff W Bool
  get_subscription_entity topic name w =
      let (res, w') = namespace.get_subscription a.timeout_in_sec topic name w in
      (found_answer (wrapped "%s could not get subscription %s, %s" (prefix ∷ name ∷ [])) res, w')

  pub create_subscription_entity : String → String → Eff W (Unit {0})
  unfolding subscription_options
  create_subscription_entity topic name =
      on_error (namespace.put_subscription a.timeout_in_sec topic name (subscription_options a))
        (λ e. fail (wrapped "%s could not put subscription %s, %s" (prefix ∷ name ∷ []) e))

  pub ensure_subscription : String → String → Eff W (Unit {0})
  unfolding ensure_topic get_subscription_entity create_subscription_entity
  ensure_subscription name topic = do
    ensure_topic topic
    namespace.new_subscription_manager topic
    there ← get_subscription_entity topic name
    if there then pure tt else create_subscription_entity topic name

  pub publish : PublishRequest → Eff W (Unit {0})
  unfolding ensure_topic
  publish req = do
    if a.disable_entity_management then pure tt else ensure_topic req.topic
    namespace.new_topic req.topic
    namespace.send a.timeout_in_sec req.topic req.payload

  -- `getHandlerFunc`
  pub handler_func : String → (NewMessage → Eff W (Unit {0})) → Incoming W → Eff W (Unit {0})
  handler_func topic handler message =
      settle (handler (record { payload = message.payload; topic = topic })) message.complete
        message.abandon

  -- Subscribe, up to the loop that it starts beside itself.
  pub subscribe : SubscribeRequest → Eff W (Unit {0})
  unfolding ensure_subscription
  subscribe req = do
    if a.disable_entity_management then pure tt else ensure_subscription a.consumer_id req.topic
    on_error (namespace.new_topic req.topic)
        (λ e. fail (wrapped "%s could not instantiate topic %s, %s" (prefix ∷ req.topic ∷ []) e))
    on_error (namespace.new_subscription req.topic a.consumer_id) (λ e. fail (
        formatted "%s could not instantiate subscription %s for topic %s"
          (prefix ∷ a.consumer_id ∷ req.topic ∷ [])))

  -- The loop of handleSubscriptionMessages, for at most `fuel` calls of Receive: true if it goes on.
  pub handle_subscription_messages : ℕ → String → (NewMessage → Eff W (Unit {0})) → W → Bool × W
  unfolding handler_func
  handle_subscription_messages zero topic handler w = (true, w)
  handle_subscription_messages (suc fuel) topic handler w =
      let (res, w') = namespace.receive (handler_func topic handler) w in
      elim res [ ok _ ↦ handle_subscription_messages fuel topic handler w' | _ ↦ (false, w') ]
