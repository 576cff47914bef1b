-- ===== src/Bindings/Services.antt =====
-- The bindings to other services: bindings/mqtt, bindings/http, bindings/kubernetes and bindings/sns.
pub mod Mqtt
pub mod Http
pub mod Kubernetes
pub mod Sns
