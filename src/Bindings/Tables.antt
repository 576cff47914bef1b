-- ===== src/Bindings/Tables.antt =====
-- The output bindings that write a JSON document: bindings/dynamodb and bindings/cosmosdb.
pub mod Dynamodb
pub mod Cosmosdb
