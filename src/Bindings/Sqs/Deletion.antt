-- ===== src/Bindings/Sqs/Deletion.antt =====
-- Which messages bindings/sqs/sqs.go deletes from the queue.
use components_contrib.Base.{
  String, ◌≡◌, ap, ◌∙◌, ◌⊎◌, Option, none, some, List, [], ◌∷◌, ◌++◌, if◌then◌else◌, All, Error, ok,
  err, Succeeds,
}
use components_contrib.Base.Effect.{Eff}
use components_contrib.State.Requests.{Bytes}
use components_contrib.Bindings.Messages.{ReadResponse, response}
use components_contrib.Base.Journal.{
  Adds, Handles, pure-Adds, for_each-Adds, ignore-Adds, settle-Adds, entries_of_all,
}
use components_contrib.Bindings.Sqs.{AwsSqs, Message, consume_message, read_round}

-- A client that keeps which receipts have been asked to be deleted, also when the deletion fails.
pub record Documented {W : Type 0} (a : AwsSqs W) (handler : ReadResponse → Eff W (Unit {0}))
    : Type 0 where
  pub deleted : W → List String
  pub handles : Handles deleted handler
  pub receive_keeps : (w : W) → deleted (a.client.receive_message a.queue_url w).1 ≡ deleted w
  pub delete_answers :
      (receipt : String) (w : W)
      → Succeeds (a.client.delete_message a.queue_url receipt w).0
        ⊎ ((e : Error) × ((a.client.delete_message a.queue_url receipt w).0 ≡ err e))
  pub delete_writes :
      (receipt : String) (w : W)
      → deleted (a.client.delete_message a.queue_url receipt w).1 ≡ deleted w ++ receipt ∷ []

module _ {W : Type 0} (a : AwsSqs W) (handler : ReadResponse → Eff W (Unit {0}))
    (laws : Documented a handler) where
  abbrev pub HasBody : Message → Type 0
  HasBody m = (body : Bytes) × (m.body ≡ some body)

  abbrev pub receipt_of : Option Bytes → String → List String
  receipt_of none receipt = []
  receipt_of (some body) receipt = if laws.handles.accepts (response body) then receipt ∷ [] else []

  -- The receipts of the messages that the handler accepts.
  abbrev pub accepted : List Message → List String
  accepted = entries_of_all λ m. receipt_of m.body m.receipt_handle

  message-Adds :
      (m : Message)
      → HasBody m
      → Adds laws.deleted (consume_message a handler m) (receipt_of m.body m.receipt_handle)
  unfolding consume_message
  message-Adds m (body, e) = rw e (
      settle-Adds laws.deleted laws.handles (response body) _ _ _ _
        (ignore-Adds laws.deleted _ _ (laws.delete_answers m.receipt_handle)
          (laws.delete_writes m.receipt_handle))
        (pure-Adds laws.deleted))

  -- With a handler that always gives the same answer to a message, never a panic, and messages that
  -- have a body: a round of Read succeeds, whether or not the receipt or the deletions fail, and asks
  -- to delete exactly the messages received that the handler accepts, each once and in order.
  pub read_round_deletes :
      (w : W)
      → let output = (a.client.receive_message a.queue_url w).0.0 in
        All HasBody output
        → ((read_round a handler w).0 ≡ ok tt)
          × (laws.deleted (read_round a handler w).1 ≡ laws.deleted w ++ accepted output)
  unfolding read_round
  read_round_deletes w h =
      let (output, w') = a.client.receive_message a.queue_url w in
      let (finished, added) =
        for_each-Adds laws.deleted (consume_message a handler) _ HasBody message-Adds output.0 h
          w' in
      (finished, added ∙ ap (λ x. x ++ accepted output.0) (laws.receive_keeps w))
