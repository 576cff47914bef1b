-- ===== src/State/Etcd.antt =====
-- state/etcd/etcd.go: the etcd state store. The client and the codecs are parameters.
pub mod Laws
mod Tests
use components_contrib.Base.{
  ℕ, String, Option, some, List, [], ◌∷◌, nat_eq, ◌==◌, if◌then◌else◌, created, index_out_of_range,
  Result, ok, err, panic, then_result,
}
use components_contrib.Base.Effect.{Eff, ◌>>=◌, ◌>>◌, pure, lift, for_each}
use components_contrib.Base.Signed.{Duration}
use components_contrib.Base.Text.{split}
use components_contrib.Base.Text.Json.{json_field}
use components_contrib.Base.Text.Decimal.{print_nat}
use components_contrib.State.Requests.{
  Bytes, Properties, Metadata, GetRequest, DeleteRequest, Value, SetRequest, GetResponse,
  empty_response, encode,
}

pub record ConfigProperties : Type 0 where
  pub endpoints : String
  pub dial_timeout : String
  pub operation_timeout : String

pub record ClientConfig : Type 0 where
  pub endpoints : List String
  pub dial_timeout : Duration

pub record KeyValue : Type 0 where
  pub value : Bytes
  pub version : ℕ

-- The answer to a Get: how many keys there are, and those that are sent.
pub record RangeResponse : Type 0 where
  pub count : ℕ
  pub kvs : List KeyValue

-- `context.WithTimeout` gives each call its time.
pub record Client (W : Type 0) : Type 0 where
  pub get : Duration → String → Eff W RangeResponse
  pub put : Duration → String → Bytes → Eff W (Unit {0})
  pub remove : Duration → String → Eff W (Unit {0})

-- The struct ETCD, initialised.
pub record Etcd (W : Type 0) : Type 0 where
  pub client : Client W
  pub operation_timeout : Duration

-- 10 seconds, in nanoseconds
abbrev pub default_operation_timeout : Duration
default_operation_timeout = 10000000000

abbrev pub properties_of : Properties → ConfigProperties
properties_of properties = record {
  endpoints = json_field properties "endpoints";
  dial_timeout = json_field properties "dialTimeout";
  operation_timeout = json_field properties "operationTimeout";
}

-- A map of strings is always read.
pub to_config_properties : Properties → Result ConfigProperties
to_config_properties properties = ok (properties_of properties)

pub to_etcd_config : (String → Result Duration) → ConfigProperties → Result ClientConfig
to_etcd_config parse_duration props =
    then_result (parse_duration props.dial_timeout) λ dial_timeout.
      ok (record { endpoints = split b',' props.endpoints; dial_timeout = dial_timeout })

pub validate_required : (String → Result Duration) → ConfigProperties → Result (Unit {0})
validate_required parse_duration props =
    if props.endpoints == ""
    then err (created "endpoints are required")
    else elim (parse_duration props.dial_timeout) [
      | ok d ↦ ok tt
      | err e ↦ err (created "DialTimeout is invalid")
      | panic p ↦ panic p
    ]

-- The operation timeout of Init: the configured one is assigned, and then the default.
pub chosen_timeout : Result Duration → Duration
chosen_timeout (ok new_timeout) = let timeout = new_timeout in default_operation_timeout
chosen_timeout _ = default_operation_timeout

module _ {W : Type 0} (new_client : ClientConfig → Eff W (Client W))
    (parse_duration : String → Result Duration) where
  pub init : Metadata → Eff W (Etcd W)
  unfolding validate_required to_etcd_config chosen_timeout to_config_properties
  init metadata = do
    props ← lift (to_config_properties metadata.properties)
    lift (validate_required parse_duration props)
    config ← lift (to_etcd_config parse_duration props)
    client ← new_client config
    pure (record {
      client = client;
      operation_timeout = chosen_timeout (parse_duration props.operation_timeout);
    })

-- `if resp.Count == 0`, then `resp.Kvs[0]`
pub get_answer : RangeResponse → Result (Option GetResponse)
get_answer resp = if nat_eq resp.count 0 then ok (some empty_response) else elim resp.kvs [
  | [] ↦ panic index_out_of_range
  | kv ∷ kvs ↦ ok (some (record { payload = kv.value; etag = print_nat kv.version; metadata = [] }))
]

module _ {W : Type 0} (r : Etcd W) where
  pub get_item : GetRequest → Eff W (Option GetResponse)
  unfolding get_answer
  get_item req = do resp ← r.client.get r.operation_timeout req.key; lift (get_answer resp)

  pub delete_item : DeleteRequest → Eff W (Unit {0})
  delete_item req = r.client.remove r.operation_timeout req.key

  pub bulk_delete : List DeleteRequest → Eff W (Unit {0})
  bulk_delete = for_each delete_item

  module _ {V : Type 0} (marshal : Value V → Result Bytes) where
    pub set_item : SetRequest V → Eff W (Unit {0})
    set_item req = r.client.put r.operation_timeout req.key (encode marshal req.value)

    pub bulk_set : List (SetRequest V) → Eff W (Unit {0})
    bulk_set = for_each set_item
