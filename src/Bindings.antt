-- ===== src/Bindings.antt =====
-- bindings/: input and output bindings.
pub mod Messages
pub mod Kafka
pub mod Sqs
pub mod Rabbitmq
pub mod GcpPubsub
pub mod ServiceBusQueues
pub mod EventHubs
pub mod Storage
pub mod Tables
pub mod Services
mod Tests
