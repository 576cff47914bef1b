-- ===== src/State/Consul.antt =====
-- state/consul/consul.go: the Consul state store. The client and the codec of values are parameters.
pub mod Laws
mod Tests
use components_contrib.Base.{
  ◌+◌, ◌/◌, ◌%◌, String, Bool, Option, none, some, List, [], ◌∷◌, ◌==◌, if◌then◌else◌, wrapped,
  Result, ok, map_error,
}
use components_contrib.Base.Effect.{Eff, ◌>>=◌, ◌>>◌, pure, fail, lift, on_error, for_each}
use components_contrib.Base.Text.{◌+s◌}
use components_contrib.Base.Text.Json.{json_field}
use components_contrib.State.Requests.{
  Bytes, Properties, Metadata, GetRequest, DeleteRequest, Value, SetRequest, GetResponse,
  empty_response, delete, strong, encode,
}

-- The struct consulConfig, which is read from the metadata.
pub record ConsulConfig : Type 0 where
  pub datacenter : String
  pub http_addr : String
  pub acl_token : String
  pub scheme : String
  pub key_prefix_path : String

-- What the store sets of `api.Config`.
pub record ClientConfig : Type 0 where
  pub datacenter : String
  pub address : String
  pub token : String
  pub scheme : String

-- The answer to a Get: the pair, if there is one, and the hash that came with it.
pub record Answer : Type 0 where
  pub pair : Option Bytes
  pub last_content_hash : String

pub record Client (W : Type 0) : Type 0 where
  pub get : String → Bool → Eff W Answer
  pub put : String → Bytes → Eff W (Unit {0})
  pub remove : String → Eff W (Unit {0})

-- The struct Consul, initialised.
pub record Consul (W : Type 0) : Type 0 where
  pub client : Client W
  pub key_prefix_path : String

-- `fmt.Sprintf("%s/%s", c.keyPrefixPath, req.Key)`
pub key_with_path : {W : Type 0} → Consul W → String → String
key_with_path c key = c.key_prefix_path +s "/" +s key

-- The prefix that Init keeps: the default for an empty one, and else the zero value.
pub chosen_prefix : ConsulConfig → String
chosen_prefix config = if config.key_prefix_path == "" then "dapr" else ""

pub client_config : ConsulConfig → ClientConfig
client_config config = record {
  datacenter = config.datacenter;
  address = config.http_addr;
  token = config.acl_token;
  scheme = config.scheme;
}

abbrev pub config_of : Properties → ConsulConfig
config_of conn_info = record {
  datacenter = json_field conn_info "datacenter";
  http_addr = json_field conn_info "httpAddr";
  acl_token = json_field conn_info "aclToken";
  scheme = json_field conn_info "scheme";
  key_prefix_path = json_field conn_info "keyPrefixPath";
}

-- A map of strings is always read.
pub metadata_to_config : Properties → Result ConsulConfig
metadata_to_config conn_info = ok (config_of conn_info)

module _ {W : Type 0} (new_client : ClientConfig → Eff W (Client W)) where
  pub init : Metadata → Eff W (Consul W)
  unfolding chosen_prefix client_config metadata_to_config
  init metadata = do
    config ← lift (
        map_error (wrapped "couldn't convert metadata properties: %s" [])
          (metadata_to_config metadata.properties))
    client ←
        on_error (new_client (client_config config))
          (λ e. fail (wrapped "initializing consul client" [] e))
    pure (record { client = client; key_prefix_path = chosen_prefix config })

pub get_answer : Answer → GetResponse
get_answer answer = elim answer.pair [
  | none ↦ empty_response
  | some value ↦ record { payload = value; etag = answer.last_content_hash; metadata = [] }
]

module _ {W : Type 0} (c : Consul W) where
  pub get_item : GetRequest → Eff W (Option GetResponse)
  unfolding key_with_path get_answer
  get_item req = do
    answer ← c.client.get (key_with_path c req.key) (req.options.consistency == strong)
    pure (some (get_answer answer))

  pub delete_item : DeleteRequest → Eff W (Unit {0})
  unfolding key_with_path
  delete_item req =
      on_error (c.client.remove (key_with_path c req.key))
        (λ e. fail (wrapped "couldn't delete key %s: %s" (key_with_path c req.key ∷ []) e))

  pub bulk_delete : List DeleteRequest → Eff W (Unit {0})
  bulk_delete = for_each delete_item

  module _ {V : Type 0} (marshal : Value V → Result Bytes) where
    pub set_item : SetRequest V → Eff W (Unit {0})
    unfolding key_with_path
    set_item req =
        on_error (c.client.put (key_with_path c req.key) (encode marshal req.value))
          (λ e. fail (wrapped "couldn't set key %s: %s" (key_with_path c req.key ∷ []) e))

    pub bulk_set : List (SetRequest V) → Eff W (Unit {0})
    bulk_set = for_each set_item
