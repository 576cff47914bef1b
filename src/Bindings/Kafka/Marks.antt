-- ===== src/Bindings/Kafka/Marks.antt =====
-- Which messages of a claim bindings/kafka/kafka.go marks.
use components_contrib.Base.{ℕ, ◌≡◌, refl, some, List, [], ◌∷◌, ◌++◌, if◌then◌else◌, All, ok}
use components_contrib.Base.Effect.{Eff}
use components_contrib.Bindings.Messages.{ReadResponse, response}
use components_contrib.Base.Journal.{
  Adds, Handles, pure-Adds, for_each-Adds, settle-Adds, entries_of_all,
}
use components_contrib.Bindings.Kafka.{Message, consume_message, consume_claim}

-- A session that keeps the offsets that are marked, and a callback that marks nothing and whose answer
-- to a message is always the same, and never a panic.
pub record Documented {W : Type 0} (mark_message : Message → W → W)
    (callback : ReadResponse → Eff W (Unit {0})) : Type 0 where
  pub marked : W → List ℕ
  pub handles : Handles marked callback
  pub mark_writes : (m : Message) (w : W) → marked (mark_message m w) ≡ marked w ++ m.offset ∷ []

module _ {W : Type 0} (mark_message : Message → W → W) (callback : ReadResponse → Eff W (Unit {0}))
    (laws : Documented mark_message callback) where
  abbrev mark_of : Message → List ℕ
  mark_of m = if laws.handles.accepts (response m.value) then m.offset ∷ [] else []

  -- The offsets of the messages that the callback accepts.
  abbrev pub accepted : List Message → List ℕ
  accepted = entries_of_all mark_of

  message-Adds :
      (m : Message) → Adds laws.marked (consume_message mark_message (some callback) m) (mark_of m)
  unfolding consume_message
  message-Adds m =
      settle-Adds laws.marked laws.handles (response m.value) _ _ _ _
        (λ w. (refl, laws.mark_writes m w)) (pure-Adds laws.marked)

  every : (ms : List Message) → All (λ m. Unit {0}) ms
  every [] = tt
  every (m ∷ ms) = (tt, every ms)

  -- With a session that keeps what is marked and a callback that always gives the same answer to a
  -- message, never a panic, to consume a claim ends without an error, and marks exactly the messages
  -- that the callback accepts, each once and in order.
  pub consume_claim_marks :
      (ms : List Message) (w : W)
      → ((consume_claim mark_message (some callback) ms w).0 ≡ ok tt)
        × (laws.marked (consume_claim mark_message (some callback) ms w).1
            ≡ laws.marked w ++ accepted ms)
  unfolding consume_claim
  consume_claim_marks ms =
      for_each-Adds laws.marked (consume_message mark_message (some callback)) mark_of
        (λ m. Unit {0}) (λ m h. message-Adds m) ms (every ms)
