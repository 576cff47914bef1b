-- ===== src/Bindings/Kafka/Tests.antt =====
-- The theorems about the Kafka binding at concrete inputs.
use components_contrib.Base.{
  ℕ, ◌+◌, ◌≡◌, refl, inl, false, none, some, List, [], ◌∷◌, ◌++◌, ltb, ◌==◌, if◌then◌else◌, created,
  ok,
}
use components_contrib.Base.Effect.{Eff, pure}
use components_contrib.Bindings.Messages.{ReadResponse}
use components_contrib.Base.Journal.{answer_by, answer_by-Handles}
use components_contrib.Bindings.Kafka.{Kafka, Message, consume_claim}
use components_contrib.Bindings.Kafka.Sessions.{Group, read}
use components_contrib.Bindings.Kafka.Sessions.Readiness.{read_ends}
use components_contrib.Bindings.Kafka.Marks.{Documented, consume_claim_marks}

abbrev mark : Message → List ℕ → List ℕ
mark m os = os ++ m.offset ∷ []

abbrev callback : ReadResponse → Eff (List ℕ) (Unit {0})
callback = answer_by λ r. r.payload == "good"

callback-Documented : Documented mark callback
callback-Documented = record {
  marked = λ w. w;
  handles = answer_by-Handles (λ w. w) (λ r. r.payload == "good");
  mark_writes = λ m w. refl;
}

abbrev claim : List Message
claim =
    record { offset = 7; value = "good" }
    ∷ record { offset = 8; value = "bad" }
    ∷ record { offset = 9; value = "good" }
    ∷ []

consume_claim_marks_example :
    ((consume_claim mark (some callback) claim []).0 ≡ ok tt)
    × ((consume_claim mark (some callback) claim []).1 ≡ 7 ∷ 9 ∷ [])
unfolding callback-Documented answer_by-Handles
consume_claim_marks_example = consume_claim_marks mark callback callback-Documented claim []

-- A group whose first call of Consume fails before Setup, and which then works: the world is the number
-- of calls, and the group is cancelled at the third.
abbrev group : Group ℕ
group = record {
  consume = λ topics w. (
    record {
      sets_up = ltb 0 w;
      claims = [];
      failure = if ltb 0 w then none else some (created "no broker");
    },
    w + 1,
  );
  mark_message = λ m w. w;
  is_cancelled = λ w. ltb 2 w;
  cancel = λ w. w;
  close = pure tt;
}

abbrev kafka : Kafka ℕ
kafka = record {
  producer = record { send_message = λ topic value. pure tt };
  topics = "t" ∷ [];
  consumer_group = "g";
  brokers = "a:1" ∷ [];
  publish_topic = "";
  auth_required = false;
  sasl_username = "";
  sasl_password = "";
}

read_ends_example :
    (read (λ brokers consumer_group config. pure group) kafka 5 0 (λ r. pure tt) 0).0 ≡ ok none
read_ends_example =
    read_ends group (λ r. pure tt) (λ r w. inl refl) (λ brokers consumer_group config. pure group)
      kafka 4 0 0 refl (λ u. refl)
