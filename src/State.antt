-- ===== src/State.antt =====
-- state/: the state stores of the repository.
pub mod Requests
pub mod Options
pub mod Retry
pub mod Bulk
pub mod Redis
pub mod Zookeeper
pub mod Contents
pub mod Etcd
pub mod Memory
pub mod Consul
pub mod Memcached
pub mod Mongodb
pub mod Cassandra
pub mod Cosmosdb
pub mod Firestore
