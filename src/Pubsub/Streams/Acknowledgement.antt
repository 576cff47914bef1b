-- ===== src/Pubsub/Streams/Acknowledgement.antt =====
-- Which messages pubsub/redis/redis.go acknowledges.
use components_contrib.Base.{
  String, ◌≡◌, refl, List, [], ◌∷◌, ◌++◌, if◌then◌else◌, All, Result, ok, err, panic, Succeeds,
}
use components_contrib.Base.Effect.{Eff, ◌>>=◌, lift, for_each}
use components_contrib.Base.Journal.{
  Adds, Handles, pure-Adds, then-Adds, for_each-Adds, settle-Adds, entries_of_all,
}
use components_contrib.Pubsub.Messages.{NewMessage}
use components_contrib.Pubsub.Streams.{
  Client, Stream, Message, new_message, deliver, process_message, process_streams,
}

-- What has been acknowledged: stream, group and message, the earliest first.
abbrev pub Entries : Type 0
Entries = List (String × String × String)

-- A client that keeps what is acknowledged, and a handler that does not acknowledge and whose answer
-- to a message is always the same, and never a panic.
pub record Documented {W : Type 0} (client : Client W) (handler : NewMessage → Eff W (Unit {0}))
    : Type 0 where
  pub entries : W → Entries
  pub handles : Handles entries handler
  pub acknowledge_writes :
      (stream group id : String) (w : W)
      → entries (client.acknowledge stream group id w) ≡ entries w ++ (stream, group, id) ∷ []

module _ {W : Type 0} (client : Client W) (consumer_id : String)
    (handler : NewMessage → Eff W (Unit {0})) (laws : Documented client handler) where
  abbrev entries_of : String → String → Result NewMessage → Entries
  entries_of stream id (ok msg) =
      if laws.handles.accepts msg then (stream, consumer_id, id) ∷ [] else []
  entries_of stream id _ = []

  -- The messages of a stream, and of several, that the handler accepts.
  abbrev pub accepted : String → List Message → Entries
  accepted stream = entries_of_all λ m. entries_of stream m.id (new_message stream m)

  abbrev pub all_accepted : List Stream → Entries
  all_accepted = entries_of_all λ s. accepted s.name s.messages

  -- Every message carries a string or nothing.
  abbrev pub AreReadable : Stream → Type 0
  AreReadable s = All (λ m. Succeeds (new_message s.name m)) s.messages

  deliver-Adds :
      (stream : String) (m : Message) (r : Result NewMessage)
      → Succeeds r
      → Adds laws.entries
          (lift r >>= deliver client consumer_id handler stream m)
          (entries_of stream m.id r)
  unfolding deliver
  deliver-Adds stream m (ok msg) h =
      settle-Adds laws.entries laws.handles msg _ _ _ _
        (λ w. (refl, laws.acknowledge_writes stream consumer_id m.id w)) (pure-Adds laws.entries)
  deliver-Adds stream m (err e) h = absurd h
  deliver-Adds stream m (panic p) h = absurd h

  messages-Adds :
      (stream : String) (ms : List Message)
      → All (λ m. Succeeds (new_message stream m)) ms
      → Adds laws.entries
          (for_each (process_message client consumer_id handler stream) ms)
          (accepted stream ms)
  unfolding process_message
  messages-Adds stream =
      for_each-Adds laws.entries (process_message client consumer_id handler stream) _
        (λ m. Succeeds (new_message stream m))
        (λ m h. deliver-Adds stream m (new_message stream m) h)

  -- With a client that keeps what is acknowledged and a handler that always gives the same answer to a
  -- message, never a panic: to process streams whose messages carry a string or nothing succeeds, and
  -- acknowledges exactly the messages that the handler accepts, each once and in order.
  pub process_streams_acknowledges :
      (streams : List Stream) (w : W)
      → All AreReadable streams
      → ((process_streams client consumer_id handler streams w).0 ≡ ok tt)
        × (laws.entries (process_streams client consumer_id handler streams w).1
            ≡ laws.entries w ++ all_accepted streams)
  unfolding process_streams for_each
  process_streams_acknowledges [] w h = pure-Adds laws.entries w
  process_streams_acknowledges (s ∷ ss) w h =
      then-Adds laws.entries
        (for_each (process_message client consumer_id handler s.name) s.messages)
        (process_streams client consumer_id handler ss) _ _ (messages-Adds s.name s.messages h.0)
        (λ v. process_streams_acknowledges ss v h.1) w
