-- ===== src/Bindings/Tests.antt =====
-- The theorems about the queue bindings at concrete inputs.
use components_contrib.Base.{
  String, ◌≡◌, refl, inr, none, some, List, [], ◌∷◌, ◌++◌, arith, eq_iff, ◌==◌, created, ok, err,
  Error,
}
use components_contrib.Base.Effect.{Eff, pure, for_each}
use components_contrib.State.Requests.{Bytes}
use components_contrib.Bindings.Messages.{ReadResponse}
use components_contrib.Base.Journal.{answer_by, answer_by-Handles}
use components_contrib.Bindings.EventHubs.{Event, AzureEventHubs, callback}
use components_contrib.Bindings.EventHubs.Age.{callback_by_age}
use components_contrib.Bindings.Sqs.{AwsSqs, Message, read_round}
use components_contrib.Bindings.Sqs.Deletion.{read_round_deletes}
use components_contrib.Bindings.Sqs.Deletion as Deletion
use components_contrib.Bindings.ServiceBusQueues.{Incoming, Queue, read}
use components_contrib.Bindings.ServiceBusQueues.Settlement.{
  Settled, completed, abandoned, read_settles,
}
use components_contrib.Bindings.ServiceBusQueues.Settlement as Settlement

-- A handler that takes the messages "good".
abbrev takes_good : {W : Type 0} → ReadResponse → Eff W (Unit {0})
takes_good = answer_by λ r. r.payload == "good"

abbrev message : String → String → Message
message body receipt_handle = record { body = some body; receipt_handle = receipt_handle }

-- The world is the list of the receipts that were to be deleted; every deletion fails.
abbrev sqs : AwsSqs (List String)
sqs = record {
  client = record {
    get_queue_url = pure;
    send_message = λ url body. pure tt;
    receive_message =
        λ url w. ((message "good" "1" ∷ message "bad" "2" ∷ message "good" "3" ∷ [], none), w);
    delete_message = λ url receipt w. (err (created "deletion failed"), w ++ receipt ∷ []);
  };
  queue_url = "url";
}

sqs-Documented : Deletion.Documented sqs takes_good
sqs-Documented = record {
  deleted = λ w. w;
  handles = answer_by-Handles (λ w. w) (λ r. r.payload == "good");
  receive_keeps = λ w. refl;
  delete_answers = λ receipt w. inr (created "deletion failed", refl);
  delete_writes = λ receipt w. refl;
}

read_round_deletes_example :
    ((read_round sqs takes_good []).0 ≡ ok tt) × ((read_round sqs takes_good []).1 ≡ "1" ∷ "3" ∷ [])
unfolding sqs-Documented answer_by-Handles
read_round_deletes_example =
    read_round_deletes sqs takes_good sqs-Documented []
      (("good", refl), (("bad", refl), (("good", refl), tt)))

abbrev incoming : String → String → Incoming (List Settled)
incoming payload id = record {
  payload = payload;
  id = id;
  correlation_id = "";
  label = "";
  abandon = λ w. (ok tt, w ++ abandoned id ∷ []);
  complete = λ w. (ok tt, w ++ completed id ∷ []);
}

abbrev two_incoming : List (Incoming (List Settled))
two_incoming = incoming "good" "1" ∷ incoming "bad" "2" ∷ []

abbrev queue : Queue (List Settled)
queue = record {
  send = λ m. pure tt;
  receive = λ f w. (err (created "link detached"), (for_each f two_incoming w).1);
}

queue-Documented : Settlement.Documented queue takes_good two_incoming
queue-Documented = record {
  settled = λ w. w;
  handles = answer_by-Handles (λ w. w) (λ r. r.payload == "good");
  receive_calls = λ f w h. (created "link detached", refl);
  settles =
      (((λ w. (refl, refl)), λ w. (refl, refl)), (((λ w. (refl, refl)), λ w. (refl, refl)), tt));
}

read_settles_example :
    ((e : Error) × ((read queue takes_good []).0 ≡ err e))
    × ((read queue takes_good []).1 ≡ completed "1" ∷ abandoned "2" ∷ [])
unfolding queue-Documented answer_by-Handles
read_settles_example = read_settles queue takes_good two_incoming queue-Documented []

-- The world is what the handler was given; the clock stands still.
abbrev hub : AzureEventHubs (List Bytes)
hub = record {
  hub = record {
    send = λ payload. pure tt;
    partitions = pure ("0" ∷ []);
    receive = λ id f group. f none;
    close = λ w. w;
  };
  metadata = record { connection_string = ""; consumer_group = ""; message_age = "8ns" };
}

abbrev event : Event
event = record { payload = "x"; system_properties = some (record { enqueued_time = some 100 }) }

abbrev append_payload : ReadResponse → Eff (List Bytes) (Unit {0})
append_payload r w = (err (created "bad"), w ++ r.payload ∷ [])

-- An event of 7 nanoseconds fits an age of 8.
callback_by_age_example :
    callback (λ text. ok 8) (λ w. 107) hub append_payload (some event) [] ≡ (ok tt, "x" ∷ [])
callback_by_age_example =
    callback_by_age (λ text. ok 8) (λ w. 107) hub append_payload event 100 7 8 []
      (ground (arith, eq_iff "8ns" "")) refl (omega arith) (omega arith) refl refl
