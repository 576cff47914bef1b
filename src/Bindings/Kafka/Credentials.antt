-- ===== src/Bindings/Kafka/Credentials.antt =====
-- The credentials that the metadata of bindings/kafka/kafka.go must have.
use components_contrib.Base.{
  String, ◌≡◌, refl, sym, ap, ◌∙◌, ◌≢◌, ◌⊎◌, inl, inr, Bool, true, false, Option, none, some, arith,
  eq_iff, ◌==◌, if◌then◌else◌, Bool-cases, Option-cases, Result, ok, err, panic, then_result,
}
use components_contrib.Base.Effect.{Holds, Holds-ok}
use components_contrib.State.Requests.{Properties, lookup, present}
use components_contrib.Bindings.Messages.{Metadata}
use components_contrib.Bindings.Kafka.{
  KafkaMetadata, auth_required_of, sasl_of, with_credentials, get_kafka_metadata,
}

abbrev text_of : Option String → String
text_of none = ""
text_of (some v) = v

nonempty-ne :
    (o : Option String) (v : String)
    → (elim o [ none ↦ none | some u ↦ if u == "" then none else some u ]) ≡ some v
    → v ≢ ""
nonempty-ne none v h = cc
nonempty-ne (some u) v h = elim (Bool-cases (u == "")) [
  | inl e ↦ absurd (impossible (sym (ap (λ b. if b then none else some u) e) ∙ h))
  | inr e ↦ λ q. differs (ap text_of (sym (ap (λ b. if b then none else some u) e) ∙ h) ∙ q) e
]
  where
    impossible : none ≢ some v
    impossible p = cc

    differs : u ≡ "" → (u == "") ≢ false
    differs p = ground (arith, eq_iff u "", p)

abbrev HasCredentials : KafkaMetadata → Type 0
HasCredentials meta =
    (meta.auth_required ≡ false) ⊎ ((meta.sasl_username ≢ "") × (meta.sasl_password ≢ ""))

-- What a step of the reading gives, if it gives anything, has `P`.
then_result-Holds :
    {A B : Type 0} (P : B → Type 0) (r : Result A) (f : A → Result B)
    → ((a : A) → r ≡ ok a → Holds P (f a))
    → Holds P (then_result r f)
then_result-Holds P (ok a) f h = h a refl
then_result-Holds P (err e) f h = tt
then_result-Holds P (panic p) f h = tt

sasl_of-ne :
    (p : Properties)
    → Holds (λ (username, password). (username ≢ "") × (password ≢ "")) (sasl_of p true)
unfolding sasl_of
sasl_of-ne p = elim (Option-cases (present p "saslUsername")) [
  | inl e ↦ rw (sasl_of, e) tt
  | inr (u, e) ↦ elim (Option-cases (present p "saslPassword")) [
    | inl e' ↦ rw (sasl_of, e, e') tt
    | inr (v, e') ↦
        rw (sasl_of, e, e')
          (nonempty-ne (lookup p "saslUsername") u e, nonempty-ne (lookup p "saslPassword") v e')
  ]
]

sasl_of-HasCredentials :
    (p : Properties) (b : Bool)
    → Holds HasCredentials (then_result (sasl_of p b) λ sasl. ok (with_credentials p b sasl))
sasl_of-HasCredentials p false =
    then_result-Holds HasCredentials (sasl_of p false) _ (λ sasl e. inl refl)
sasl_of-HasCredentials p true =
    then_result-Holds HasCredentials (sasl_of p true) _
      (λ sasl e. inr (Holds-ok _ (sasl_of p true) sasl (sasl_of-ne p) e))

-- Metadata that are accepted and require authentication have a user name and a password, neither of
-- them empty.
get_kafka_metadata_credentials :
    (metadata : Metadata) (meta : KafkaMetadata)
    → get_kafka_metadata metadata ≡ ok meta
    → meta.auth_required ≡ true
    → (meta.sasl_username ≢ "") × (meta.sasl_password ≢ "")
unfolding get_kafka_metadata
get_kafka_metadata_credentials metadata meta read required = needed (
    Holds-ok HasCredentials (get_kafka_metadata metadata) meta
      (then_result-Holds HasCredentials
        (auth_required_of (lookup metadata.properties "authRequired"))
        (λ b.
          then_result (sasl_of metadata.properties b)
            λ sasl. ok (with_credentials metadata.properties b sasl))
        (λ b e. sasl_of-HasCredentials metadata.properties b))
      read)
  where
    needed : HasCredentials meta → (meta.sasl_username ≢ "") × (meta.sasl_password ≢ "")
    needed (inl e) = cc
    needed (inr h) = h
