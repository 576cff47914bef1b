-- ===== src/Bindings/ServiceBusQueues/Settlement.antt =====
-- Which messages bindings/servicebusqueues/servicebusqueues.go completes, and which it gives up.
use components_contrib.Base.{
  String, ◌≡◌, refl, List, [], ◌∷◌, ◌++◌, if◌then◌else◌, All, Error, ok, err,
}
use components_contrib.Base.Effect.{Eff, for_each}
use components_contrib.Bindings.Messages.{ReadResponse}
use components_contrib.Base.Journal.{Adds, Handles, for_each-Adds, settle-Adds, entries_of_all}
use components_contrib.Bindings.ServiceBusQueues.{
  Incoming, Queue, incoming_response, consume_message, read,
}

pub data Settled : Type 0 where
  completed : String → Settled
  abandoned : String → Settled

-- A queue that hands over these messages, one after the other, and keeps how each is settled. Receive
-- goes on until the connection or the context ends, and gives the error with which it ended.
pub record Documented {W : Type 0} (client : Queue W) (handler : ReadResponse → Eff W (Unit {0}))
    (messages : List (Incoming W)) : Type 0 where
  pub settled : W → List Settled
  pub handles : Handles settled handler
  pub receive_calls :
      (f : Incoming W → Eff W (Unit {0})) (w : W)
      → (for_each f messages w).0 ≡ ok tt
      → (e : Error) × (client.receive f w ≡ (err e, (for_each f messages w).1))
  pub settles :
      All
        (λ m.
          Adds settled m.complete (completed m.id ∷ [])
          × Adds settled m.abandon (abandoned m.id ∷ []))
        messages

module _ {W : Type 0} (client : Queue W) (handler : ReadResponse → Eff W (Unit {0}))
    (messages : List (Incoming W)) (laws : Documented client handler messages) where
  abbrev pub settlement_of : Incoming W → List Settled
  settlement_of m =
      if laws.handles.accepts (incoming_response m)
      then completed m.id ∷ []
      else abandoned m.id ∷ []

  -- With a handler that always gives the same answer to a message, never a panic, and a queue on which
  -- messages can be settled: until its connection ends, with the error that Read then gives, Read
  -- settles every message that it is given exactly once and in order, and completes those that the
  -- handler accepts and gives up the others.
  pub read_settles :
      (w : W)
      → ((e : Error) × ((read client handler w).0 ≡ err e))
        × (laws.settled (read client handler w).1
            ≡ laws.settled w ++ entries_of_all settlement_of messages)
  unfolding read consume_message
  read_settles w =
      let (all_done, journal) =
        for_each-Adds laws.settled (consume_message client handler) settlement_of _
          (λ m (h, k). settle-Adds laws.settled laws.handles (incoming_response m) _ _ _ _ h k)
          messages laws.settles w in
      let (e, ends) = laws.receive_calls (consume_message client handler) w all_done in
      rw ends ((e, refl), journal)
