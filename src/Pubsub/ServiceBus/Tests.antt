-- ===== src/Pubsub/ServiceBus/Tests.antt =====
-- The theorem about Azure Service Bus at a concrete input, on a namespace in memory.
use components_contrib.Base.{
  String, ◌≡◌, refl, Bool, true, false, ◌&&◌, Option, none, some, List, [], ◌∷◌, eq_refl, ◌==◌,
  if◌then◌else◌, ok,
}
use components_contrib.Base.Signed.{pos, to_int32}
use components_contrib.Base.Text.Decimal.{print_nat, itoa}
use components_contrib.State.Memory.{find}
use components_contrib.Pubsub.ServiceBus.{
  ServiceBusMetadata, SubscriptionDescription, entity, absent, Namespace, subscription_options,
  ensure_subscription,
}
use components_contrib.Pubsub.ServiceBus.Entities.{Documented, ensure_subscription_there}

-- The topics, and the subscriptions of all topics by the names of both.
abbrev World : Type 0
World = List (String × Bool) × List (String × String × SubscriptionDescription)

abbrev is_topic : List (String × Bool) → String → Bool
is_topic ts t = elim (find ts t) [ none ↦ false | some b ↦ b ]

abbrev find_both :
    List (String × String × SubscriptionDescription)
    → String
    → String
    → Option SubscriptionDescription
find_both [] t n = none
find_both ((u, m, d) ∷ ss) t n = if t == u && n == m then some d else find_both ss t n

abbrev memory : Namespace World
memory = record {
  get_topic = λ time t w. (if is_topic w.0 t then entity else absent, w);
  put_topic = λ time t w. (ok tt, ((t, true) ∷ w.0, w.1));
  new_subscription_manager = λ t w. (ok tt, w);
  get_subscription =
      λ time t n w. (elim (find_both w.1 t n) [ none ↦ absent | some d ↦ entity ], w);
  put_subscription = λ time t n d w. (ok tt, (w.0, (t, n, d) ∷ w.1));
  new_topic = λ t w. (ok tt, w);
  new_subscription = λ t n w. (ok tt, w);
  send = λ time t b w. (ok tt, w);
  receive = λ handler w. (ok tt, w);
}

abbrev app : ServiceBusMetadata
app = record {
  connection_string = "sb";
  consumer_id = "app";
  timeout_in_sec = pos 60;
  disable_entity_management = false;
  max_delivery_count = some (pos 3);
  lock_duration_in_sec = none;
  default_message_time_to_live_in_sec = some (pos 20);
  auto_delete_on_idle_in_sec = none;
}

abbrev memory-Documented : Documented memory (pos 60)
memory-Documented = record {
  topics = λ w. is_topic w.0;
  subscriptions = λ w. find_both w.1;
  get_topic_reply = λ t w. refl;
  put_topic_reply = λ t w. refl;
  put_topic_self = λ t w. rw (is_topic, eq_refl t) refl;
  put_topic_keeps = λ t w. refl;
  manager_reply = λ t w. refl;
  get_subscription_reply = λ t n w. refl;
  put_subscription_reply = λ t n d w h. refl;
  put_subscription_self = λ t n d w. rw (find_both, eq_refl t, eq_refl n) refl;
  put_subscription_keeps = λ t n d w. refl;
}

abbrev wanted : SubscriptionDescription
wanted = record {
  max_delivery_count = some (pos 3);
  lock_duration = none;
  default_message_time_to_live = some "PT20S";
  auto_delete_on_idle = none;
}

ensure_subscription_there_example :
    ((ensure_subscription app memory "app" "orders" ([], [])).0 ≡ ok tt)
    × (is_topic (ensure_subscription app memory "app" "orders" ([], [])).1.0 "orders" ≡ true)
    × (find_both (ensure_subscription app memory "app" "orders" ([], [])).1.1 "orders" "app"
        ≡ some (subscription_options app))
ensure_subscription_there_example =
    ensure_subscription_there app memory memory-Documented "app" "orders" ([], [])

options_of_app : subscription_options app ≡ wanted
unfolding subscription_options to_int32 itoa print_nat
options_of_app = refl
