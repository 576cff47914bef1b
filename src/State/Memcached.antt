-- ===== src/State/Memcached.antt =====
-- state/memcached/memcached.go: the Memcached state store. The client and the codec are parameters.
pub mod Laws
mod Tests
use components_contrib.Base.{
  ◌+◌, ◌*◌, ◌%◌, String, Option, none, some, List, [], ◌∷◌, Error, created, wrapped, Result, ok,
  err, then_result,
}
use components_contrib.Base.Effect.{Eff, ◌>>=◌, ◌>>◌, pure, fail, lift, on_error, for_each}
use components_contrib.Base.Signed.{ℤ, pos, negsuc, to_int64, Duration}
use components_contrib.Base.Text.{split}
use components_contrib.Base.Text.Decimal.{atoi}
use components_contrib.State.Requests.{
  Bytes, present, Metadata, GetRequest, DeleteRequest, Value, SetRequest, GetResponse, encode,
}
use components_contrib.State.Retry.{set_with_retries}

-- The struct memcachedMetadata; the timeout is in nanoseconds.
pub record MemcachedMetadata : Type 0 where
  pub hosts : List String
  pub max_idle_connections : ℤ
  pub timeout : ℤ

-- What `client.Get` gives: an item, `memcache.ErrCacheMiss`, or another error.
pub data Lookup : Type 0 where
  item : Bytes → Lookup
  cache_miss : Lookup
  failed : Error → Lookup

pub record Client (W : Type 0) : Type 0 where
  pub ping : Eff W (Unit {0})
  pub get : String → W → Lookup × W
  pub set : String → Bytes → Eff W (Unit {0})
  pub remove : String → Eff W (Unit {0})

-- `time.Duration(p) * time.Millisecond`, on int64
abbrev pub milliseconds : ℤ → ℤ
milliseconds (pos n) = to_int64 (pos (n * 1000000))
milliseconds (negsuc n) = to_int64 (negsuc (n * 1000000 + 999999))

-- An optional number of the metadata, with its default and the message for one that is none.
pub number_or : ℤ → (ℤ → ℤ) → String → Option String → Result ℤ
number_or default scale message none = ok default
number_or default scale message (some val) = elim (atoi val) [
  | some p ↦ ok (scale p)
  | none ↦ err (created message)
]

pub get_memcached_metadata : Metadata → Result MemcachedMetadata
unfolding number_or
get_memcached_metadata metadata = elim (present metadata.properties "hosts") [
  | none ↦ err (created "missing or empty hosts field from metadata")
  | some val ↦
      then_result
        (number_or (pos 2) (λ x. x) "error parsing maxIdleConnections"
          (present metadata.properties "maxIdleConnections"))
        λ max_idle_connections.
          then_result
            (number_or (pos 1000000000) milliseconds "error parsing timeout"
              (present metadata.properties "timeout"))
            λ timeout. ok (record {
              hosts = split b',' val;
              max_idle_connections = max_idle_connections;
              timeout = timeout;
            })
]

module _ {W : Type 0} (new_client : MemcachedMetadata → W → Client W × W) where
  pub init : Metadata → Eff W (Client W)
  unfolding get_memcached_metadata
  init metadata = do
    meta ← lift (get_memcached_metadata metadata)
    client ← λ w. (ok (new_client meta w).0, (new_client meta w).1)
    client.ping
    pure client

-- A miss is the nil response without an error. With an error the source also gives an empty response;
-- here it gives the error alone.
pub get_answer : Lookup → Result (Option GetResponse)
get_answer (item value) = ok (some (record { payload = value; etag = ""; metadata = [] }))
get_answer cache_miss = ok none
get_answer (failed e) = err e

module _ {W : Type 0} (client : Client W) where
  pub get_item : GetRequest → Eff W (Option GetResponse)
  unfolding get_answer
  get_item req w = (get_answer (client.get req.key w).0, (client.get req.key w).1)

  pub delete_item : DeleteRequest → Eff W (Unit {0})
  delete_item req = client.remove req.key

  pub bulk_delete : List DeleteRequest → Eff W (Unit {0})
  bulk_delete = for_each delete_item

  module _ {V : Type 0} (marshal : Value V → Result Bytes) (sleep : Duration → W → W) where
    pub set_value : SetRequest V → Eff W (Unit {0})
    set_value req =
        on_error (client.set req.key (encode marshal req.value))
          (λ e. fail (wrapped "failed to set key %s: %s" (req.key ∷ []) e))

    pub set_item : SetRequest V → Eff W (Unit {0})
    unfolding set_value
    set_item = set_with_retries sleep set_value

    pub bulk_set : List (SetRequest V) → Eff W (Unit {0})
    bulk_set = for_each set_item
