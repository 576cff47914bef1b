-- ===== src/Pubsub/Tests.antt =====
-- The theorems about publishing and subscribing at concrete inputs.
use components_contrib.Base.{◌≡◌, refl, List, [], ◌∷◌, ◌++◌, ◌==◌, ok}
use components_contrib.Base.Effect.{Eff, pure}
use components_contrib.Base.Journal.{answer_by, answer_by-Handles}
use components_contrib.Pubsub.Messages.{NewMessage}
use components_contrib.Pubsub.Streams.{
  Client, Stream, Message, Field, text, missing, process_streams, begin_reading,
}
use components_contrib.Pubsub.Streams.Acknowledgement.{
  Documented, Entries, process_streams_acknowledges,
}

abbrev client : Client Entries
client = record {
  ping = pure tt;
  add = λ topic payload. pure tt;
  create_group = λ topic group start. pure tt;
  read_group = λ group consumer stream start. pure [];
  acknowledge = λ stream group id entries. entries ++ (stream, group, id) ∷ [];
}

-- A handler that takes the messages "good".
abbrev handler : NewMessage → Eff Entries (Unit {0})
handler = answer_by λ msg. msg.payload == "good"

client-Documented : Documented client handler
client-Documented = record {
  entries = λ w. w;
  handles = answer_by-Handles (λ w. w) (λ msg. msg.payload == "good");
  acknowledge_writes = λ stream group id w. refl;
}

abbrev two_messages : List Stream
two_messages =
    record {
      name = "orders";
      messages =
          record { id = "1"; data_field = text "good" }
          ∷ record { id = "2"; data_field = missing }
          ∷ [];
    }
    ∷ []

process_streams_acknowledges_example :
    ((process_streams client "app" handler two_messages []).0 ≡ ok tt)
    × ((process_streams client "app" handler two_messages []).1 ≡ ("orders", "app", "1") ∷ [])
unfolding components_contrib.Pubsub.Streams.new_message client-Documented answer_by-Handles
process_streams_acknowledges_example =
    process_streams_acknowledges client "app" handler client-Documented two_messages []
      ((tt, (tt, tt)), tt)
