-- ===== src/Bindings/Storage/Redis.antt =====
-- bindings/redis/redis.go
use components_contrib.Base.{String, none, some, created}
use components_contrib.Base.Effect.{Eff, fail}
use components_contrib.State.Requests.{Bytes, present}
use components_contrib.Bindings.Messages.{Metadata, WriteRequest}
use components_contrib.Base.Text.Json.{json_field}

pub record RedisMetadata : Type 0 where
  pub host : String
  pub password : String

-- `set` is the command SET with redis.AsError of its answer.
pub record Client (W : Type 0) : Type 0 where
  pub set : String → Bytes → Eff W (Unit {0})

pub parse_metadata : Metadata → RedisMetadata
parse_metadata metadata = record {
  host = json_field metadata.properties "redisHost";
  password = json_field metadata.properties "redisPassword";
}

-- `connect` takes the host and the password.
module _ {W : Type 0} (connect : String → String → Eff W (Client W)) where
  pub init : Metadata → Eff W (Client W)
  unfolding parse_metadata
  init metadata = let m = parse_metadata metadata in connect m.host m.password

pub write : {W : Type 0} → Client W → WriteRequest → Eff W (Unit {0})
write client req = elim (present req.metadata "key") [
  | none ↦ fail (created "redis binding: missing key on write request metadata")
  | some key ↦ client.set key req.payload
]
