-- ===== src/Lib.antt =====
-- A verification development for the Dapr components-contrib repository.
--
-- The repository implements the building blocks of Dapr over services of others: state stores
-- (state/), publish and subscribe (pubsub/), bindings (bindings/), secret stores (secretstores/),
-- service discovery (servicediscovery/) and trace exporters (exporters/). Each component reads its
-- settings from a map of strings, connects a client library, and turns the requests of Dapr into calls
-- of that client. The components do not call each other; the state stores share the requests, the
-- checks of their options and the retries of state/.
--
-- How the models are made. A method is a function from the world, which holds the service, the network
-- and the clock, to its result and the next world (Base/Effect); a result is a value, an error or a
-- run-time panic (Base/Outcome). A client library is a record of functions that a model takes as an
-- argument, and what the library documents is a record of laws that a theorem takes; both are
-- instantiated by a service in memory where the theorems are run (the modules Tests). The JSON codecs
-- of values, time.ParseDuration and strconv.ParseInt in base 0 are functions that the models take. What
-- the program uses of strings, strconv, path and, for metadata, encoding/json is modelled in Base/Text.
-- A Go int is an integer of Base/Signed, whose conversions to int32 and int64 wrap; a time.Duration is
-- its 64 bits. A byte slice and a string are both sequences of bytes. Logging is left out.
--
-- Which file models which part:
--   * Base: the shared names, tests, results, effects, numbers and texts.
--   * State/Requests: state/requests.go, state/responses.go, state/metadata.go, state/store.go and
--     state/transactional_store.go.
--   * State/Options and State/Retry: state/retry.go. CheckSetRequestOptions is
--     check_set_request_options, SetWithRetries is set_with_retries; its loop recurs on the rounds that
--     the threshold leaves, so that it needs no fuel.
--   * State/Redis: state/redis/redis.go, with the two Lua scripts as set_query and del_query; Replicas
--     has Init, Response has Get, Concrete is a server in memory, whose keys hold hashes or plain
--     texts. What Redis documents of its commands, of the scripts and of MULTI and EXEC is in
--     State/Redis/Laws, and Concrete/Laws shows that the server in memory does so.
--     State/Redis/Steps has the interleavings of several clients: a step is one attempt of a set or of a
--     deletion, which the server runs as one script, a transaction of Multi, whose commands the server
--     runs together, or anything that only reads or waits. State/Redis/Calls has Set and Delete with
--     their retries, Bulk has BulkSet, RoundTrip a Get after a Set, Response/Transactions a Get after a
--     Multi, and Replication the WAIT for the replicas.
--   * State/Zookeeper: state/zookeeper/zk.go. The loop of BulkSet is set_rounds, on fuel: a round either
--     ends the loop or leaves creations only, and a round of creations ends it, so that two are enough.
--     Writes and Removals are about Set and Delete on a server that keeps the Laws, Interleaving about
--     the calls of several clients.
--   * State/Contents: what a store without versions promises, as the record Implements, for the keys and
--     the contents that its client and its server take. State/Etcd (state/etcd/etcd.go), State/Consul
--     (state/consul/consul.go), State/Memcached (state/memcached/memcached.go) and State/Firestore
--     (state/firestore/firestore.go) fill it; Contents/Replay has whole sequences of their calls.
--     State/Mongodb is state/mongodb/mongodb.go, whose Transactions has a session of MongoDB, and
--     State/Cassandra is state/cassandra/cassandra.go, with the statements that it sends. Get, Set,
--     Delete, BulkSet, BulkDelete, Multi and Init are get_item, set_item, delete_item, bulk_set,
--     bulk_delete, multi and init in all of them.
--   * Pubsub/Envelope: pubsub/envelope.go. Pubsub/Streams: pubsub/redis/redis.go, whose reading loop
--     begin_reading runs for a given number of rounds, since it ends at a failed read only.
--     Pubsub/Nats: pubsub/nats/nats.go. Pubsub/ServiceBus: pubsub/azureservicebus/azureservicebus.go,
--     whose loop handle_subscription_messages runs for a given number of calls of Receive.
--   * State/Cosmosdb: state/cosmosdb/cosmosdb.go, in the names of the other stores.
--   * Bindings/Messages: the structs and interfaces of bindings/. Bindings/Kafka:
--     bindings/kafka/kafka.go; Sessions has the loop of Read, for a given number of calls of Consume,
--     with the channel that Setup closes and the moment at which Read looks for its channel.
--     Bindings/Sqs, Bindings/Rabbitmq, Bindings/GcpPubsub and Bindings/ServiceBusQueues:
--     bindings/sqs/sqs.go, bindings/rabbitmq/rabbitmq.go, bindings/pubsub/pubsub.go and
--     bindings/servicebusqueues/servicebusqueues.go, whose handlers of one message are consume_message
--     or consume_delivery; the endless loop of the SQS binding runs for a given number of rounds.
--     Bindings/EventHubs: bindings/eventhubs/eventhubs.go. Bindings/Storage (blobstorage, s3,
--     gcpbucket, redis), Bindings/Tables (dynamodb, cosmosdb) and Bindings/Services (mqtt, http,
--     kubernetes, sns) have a child for each of these bindings; the wait for a connection to MQTT and
--     the loop over the events of Kubernetes run on fuel and give `none` when it was not enough.
--   * Base/Journal: what a method adds to a journal for each message, which the theorems about the
--     bindings and about Pubsub/Streams share. Base/Text/Json: how encoding/json reads metadata into a
--     struct of strings.
--   * Secrets: secretstores/, with a child for the stores of vault (Certificates has the root
--     certificates), keyvault and kubernetes. Discovery: servicediscovery/. Exporters: exporters/.
--
-- Not modelled: how goroutines interleave. Those that Subscribe, and Read of the Kafka and of the
-- RabbitMQ binding, start are modelled as the loop that they run; the claims of a session of Kafka are
-- consumed one after the other. The generated mock of state/zookeeper serves tests only. The libraries
-- under vendor/ are parameters.
pub mod Base
pub mod State
pub mod Secrets
pub mod Discovery
pub mod Exporters
pub mod Pubsub
pub mod Bindings
