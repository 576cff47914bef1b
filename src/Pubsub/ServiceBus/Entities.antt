-- ===== src/Pubsub/ServiceBus/Entities.antt =====
-- The topics and subscriptions that pubsub/azureservicebus/azureservicebus.go makes before it uses them.
use components_contrib.Base.{
  String, ◌≡◌, refl, ap, ◌∙◌, inl, inr, Bool, true, false, Option, none, some, if◌then◌else◌,
  Bool-cases, Option-cases, ok,
}
use components_contrib.Base.Effect.{◌>>=◌, pure}
use components_contrib.Base.Signed.{ℤ}
use components_contrib.Pubsub.ServiceBus.{
  ServiceBusMetadata, SubscriptionDescription, entity, absent, Namespace, subscription_options,
  get_topic_entity, create_topic_entity, ensure_topic, get_subscription_entity,
  create_subscription_entity, ensure_subscription,
}

-- A service that can be reached within the time: what there is, and what putting an entity adds.
pub record Documented {W : Type 0} (namespace : Namespace W) (time : ℤ) : Type 0 where
  pub topics : W → String → Bool
  pub subscriptions : W → String → String → Option SubscriptionDescription
  pub get_topic_reply :
      (t : String) (w : W)
      → namespace.get_topic time t w ≡ (if topics w t then entity else absent, w)
  pub put_topic_reply : (t : String) (w : W) → (namespace.put_topic time t w).0 ≡ ok tt
  pub put_topic_self : (t : String) (w : W) → topics (namespace.put_topic time t w).1 t ≡ true
  pub put_topic_keeps :
      (t : String) (w : W) → subscriptions (namespace.put_topic time t w).1 ≡ subscriptions w
  pub manager_reply : (t : String) (w : W) → namespace.new_subscription_manager t w ≡ (ok tt, w)
  pub get_subscription_reply :
      (t n : String) (w : W)
      → namespace.get_subscription time t n w
        ≡ (elim (subscriptions w t n) [ none ↦ absent | some d ↦ entity ], w)
  pub put_subscription_reply :
      (t n : String) (d : SubscriptionDescription) (w : W)
      → topics w t ≡ true
      → (namespace.put_subscription time t n d w).0 ≡ ok tt
  pub put_subscription_self :
      (t n : String) (d : SubscriptionDescription) (w : W)
      → subscriptions (namespace.put_subscription time t n d w).1 t n ≡ some d
  pub put_subscription_keeps :
      (t n : String) (d : SubscriptionDescription) (w : W)
      → topics (namespace.put_subscription time t n d w).1 ≡ topics w

-- The subscription that is there afterwards: the old one, or a new one.
abbrev pub kept_or :
    SubscriptionDescription → Option SubscriptionDescription → SubscriptionDescription
kept_or d none = d
kept_or d (some old) = old

module _ {W : Type 0} (a : ServiceBusMetadata) (namespace : Namespace W)
    (laws : Documented namespace a.timeout_in_sec) where
  get_topic_entity-topics :
      (topic : String) (w : W)
      → get_topic_entity a namespace topic w ≡ (ok (laws.topics w topic), w)
  unfolding get_topic_entity
  get_topic_entity-topics topic w = elim (Bool-cases (laws.topics w topic)) [
    | inl e ↦ rw (laws.get_topic_reply topic w, e) refl
    | inr e ↦ rw (laws.get_topic_reply topic w, e) refl
  ]

  topic_step :
      (topic : String) (w : W)
      → let m = get_topic_entity a namespace topic >>= λ there.
          if there then pure tt else create_topic_entity a namespace topic in
        ((m w).0 ≡ ok tt)
        × (laws.topics (m w).1 topic ≡ true)
        × (laws.subscriptions (m w).1 ≡ laws.subscriptions w)
  unfolding create_topic_entity
  topic_step topic w = elim (Bool-cases (laws.topics w topic)) [
    | inl e ↦ rw (get_topic_entity-topics topic w, e) (refl, e, refl)
    | inr e ↦
        rw (get_topic_entity-topics topic w, e, create_topic_entity, laws.put_topic_reply topic w)
          (refl, laws.put_topic_self topic w, laws.put_topic_keeps topic w)
  ]

  ensure_topic-topics :
      (topic : String) (w : W)
      → ((ensure_topic a namespace topic w).0 ≡ ok tt)
        × (laws.topics (ensure_topic a namespace topic w).1 topic ≡ true)
        × (laws.subscriptions (ensure_topic a namespace topic w).1 ≡ laws.subscriptions w)
  unfolding ensure_topic
  ensure_topic-topics = topic_step

  -- Whether there is a subscription.
  abbrev is_some : Option SubscriptionDescription → Bool
  is_some none = false
  is_some (some d) = true

  get_subscription_entity-subscriptions :
      (topic name : String) (w : W)
      → get_subscription_entity a namespace topic name w
        ≡ (ok (is_some (laws.subscriptions w topic name)), w)
  unfolding get_subscription_entity
  get_subscription_entity-subscriptions topic name w =
      elim (Option-cases (laws.subscriptions w topic name)) [
        | inl e ↦ rw (laws.get_subscription_reply topic name w, e) refl
        | inr (d, e) ↦ rw (laws.get_subscription_reply topic name w, e) refl
      ]

  subscription_step :
      (name topic : String) (w : W)
      → laws.topics w topic ≡ true
      → let m = get_subscription_entity a namespace topic name >>= λ there.
          if there then pure tt else create_subscription_entity a namespace topic name in
        ((m w).0 ≡ ok tt)
        × (laws.topics (m w).1 topic ≡ true)
        × (laws.subscriptions (m w).1 topic name
            ≡ some (kept_or (subscription_options a) (laws.subscriptions w topic name)))
  unfolding create_subscription_entity
  subscription_step name topic w there = elim (Option-cases (laws.subscriptions w topic name)) [
    | inl e ↦
        rw
          (
            get_subscription_entity-subscriptions topic name w,
            e,
            create_subscription_entity,
            laws.put_subscription_reply topic name (subscription_options a) w there,
          )
          (
            refl,
            ap (λ f. f topic) (laws.put_subscription_keeps topic name _ w) ∙ there,
            laws.put_subscription_self topic name _ w,
          )
    | inr (d, e) ↦ rw (get_subscription_entity-subscriptions topic name w, e) (refl, there, e)
  ]

  -- If the service can be reached, to make sure of a subscription succeeds; then the topic is there,
  -- and the subscription is the one that was there before, unchanged, or else a new one with the
  -- options of the metadata.
  pub ensure_subscription_there :
      (name topic : String) (w : W)
      → ((ensure_subscription a namespace name topic w).0 ≡ ok tt)
        × (laws.topics (ensure_subscription a namespace name topic w).1 topic ≡ true)
        × (laws.subscriptions (ensure_subscription a namespace name topic w).1 topic name
            ≡ some (kept_or (subscription_options a) (laws.subscriptions w topic name)))
  unfolding ensure_subscription
  ensure_subscription_there name topic w =
      let (succeeds, there, same) = ensure_topic-topics topic w in
      let w' = (ensure_topic a namespace topic w).1 in
      let step = subscription_step name topic w' there in
      rw (succeeds, laws.manager_reply topic w')
        (
          step.0,
          step.1,
          step.2 ∙ ap (λ f. some (kept_or (subscription_options a) (f topic name))) same,
        )
