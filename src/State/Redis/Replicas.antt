-- ===== src/State/Redis/Replicas.antt =====
-- parseConnectedSlaves, getConnectedSlaves and Init of state/redis/redis.go.
use components_contrib.Base.Text.Json.{json_field}
use components_contrib.Base.{
  ℕ, String, List, [], ◌∷◌, ◌==◌, if◌then◌else◌, external, Result, ok, err,
}
use components_contrib.Base.Effect.{Eff, ◌>>=◌, ◌>>◌, pure}
use components_contrib.Base.Text.{split_lines, contains, slice_from}
use components_contrib.Base.Text.Decimal.{parse_uint32}
use components_contrib.State.Requests.{Metadata}
use components_contrib.State.Redis.{Reply, bulk, failure, Server, StateStore, Credentials}

abbrev marker : String
marker = "connected_slaves:"

first_marked : List String → ℕ
first_marked [] = 0
first_marked (info ∷ infos) =
    if contains info marker then parse_uint32 (slice_from info 17) else first_marked infos

pub parse_connected_slaves : String → ℕ
unfolding first_marked
parse_connected_slaves res = first_marked (split_lines res)

slaves_answer : Reply → Result ℕ
slaves_answer (failure m) = err (external m)
slaves_answer (bulk t) = if t == "" then ok 0 else ok (parse_connected_slaves t)
slaves_answer _ = ok 0

module _ {W : Type 0} (s : Server W) where
  pub get_connected_slaves : Eff W ℕ
  unfolding slaves_answer
  get_connected_slaves w =
      let (res, w') = s.send (λ v. (s.info_replication v, v)) w in (slaves_answer res, w')

  pub init : Metadata → Eff W StateStore
  unfolding get_connected_slaves
  init metadata = do
    let credentials : Credentials = record {
      host = json_field metadata.properties "redisHost";
      password = json_field metadata.properties "redisPassword";
    }
    s.connect credentials.host credentials.password
    replicas ← get_connected_slaves
    pure (record { replicas = replicas })
