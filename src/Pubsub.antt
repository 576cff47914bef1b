-- ===== src/Pubsub.antt =====
-- pubsub/: the envelope of Cloud Events and the message brokers.
pub mod Messages
pub mod Envelope
pub mod Streams
pub mod Nats
pub mod ServiceBus
mod Tests
