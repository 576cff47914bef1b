-- ===== src/State/Redis.antt =====
-- state/redis/redis.go: the Redis state store. The Redis server, its commands and the client library
-- are parameters (`Server`); the two Lua scripts, which the server runs in one step, are modelled.
pub mod Laws
pub mod Response
pub mod Replicas
mod Script
pub mod Asking
pub mod Versions
pub mod Deletion
pub mod Concrete
pub mod Steps
pub mod Reachable
pub mod Transactions
pub mod Invariant
pub mod Interleaving
pub mod Recreation
pub mod Calls
pub mod RoundTrip
pub mod Bulk
pub mod Replication
mod Tests
use components_contrib.Base.{
  ℕ, ◌+◌, ◌%◌, String, Bool, true, false, ◌&&◌, ◌||◌, Option, none, some, List, [], ◌∷◌, ltb, ◌==◌,
  ◌!=◌, if◌then◌else◌, Error, formatted, wrapped, external, failed_type_assertion, Result, ok, err,
  panic, then_result,
}
use components_contrib.State.Requests.{
  Bytes, DeleteRequest, Value, SetRequest, TransactionalRequest, upsert, delete, mismatched,
  unknown, last_write, strong, encode, marshalled,
}
use components_contrib.Base.Text.{◌+s◌}
use components_contrib.Base.Text.Decimal.{atoi, print_nat, itoa}
use components_contrib.Base.Effect.{Eff, ◌>>=◌, ◌>>◌, lift, for_each}
use components_contrib.Base.Signed.{ℤ, pos, Duration}
use components_contrib.State.Options.{check_set_request_options, check_delete_request_options}
use components_contrib.State.Retry.{set_with_retries, delete_with_retries}

-- A reply of the server. An error reply of the server, and a failure of the connection, is what
-- `redis.AsError` tells from the others.
pub data Reply : Type 0 where
  nil : Reply
  bulk : String → Reply
  integer : ℕ → Reply
  array : List String → Reply
  failure : String → Reply

abbrev pub is_failure : Reply → Bool
is_failure (failure m) = true
is_failure _ = false

-- `if err := redis.AsError(res); err != nil`
abbrev pub as_error : Reply → Option Error
as_error (failure m) = some (external m)
as_error _ = none

-- The commands that the store sends, and `send`, which is what `client.Do` does with a command.
pub record Server (W : Type 0) : Type 0 where
  pub hget : String → String → W → Reply
  pub hgetall : String → W → Reply
  pub plain_get : String → W → Reply
  pub del : String → W → Reply × W
  pub hset : String → String → String → W → Reply × W
  pub hincrby : String → String → ℕ → W → Reply × W
  pub wait : ℕ → ℕ → W → Reply × W
  pub info_replication : W → Reply
  pub send : (W → Reply × W) → W → Reply × W
  pub transaction : List (W → Reply × W) → W → Result (Unit {0}) × W
  pub plain_set : String → String → W → Reply × W
  pub connect : String → String → Eff W (Unit {0})
  pub sleep : Duration → W → W

pub record StateStore : Type 0 where
  pub replicas : ℕ

pub record Credentials : Type 0 where
  pub host : String
  pub password : String

abbrev read_only : {W : Type 0} → (W → Reply) → W → Reply × W
read_only f w = (f w, w)

-- `redis.call`: an error reply ends the script with it.
abbrev pub call : {W : Type 0} → Reply × W → (W → Reply × W) → Reply × W
call (failure m, w) rest = (failure m, w)
call (_, w) rest = rest w

-- `not var1 or type(var1) == "table" or var1 == "" or var1 == ARGV[1] or ARGV[1] == "0"`; a nil reply
-- is false in Lua, an error that `pcall` caught is a table.
pub may_write : Reply → String → Bool
may_write nil argument = true
may_write (failure m) argument = true
may_write (bulk v) argument = v == "" || v == argument || argument == "0"
may_write (integer n) argument = argument == "0"
may_write (array vs) argument = true

-- The error that `deleteValue` makes of the reply to its script.
pub delete_answer : String → Reply → Result (Unit {0})
delete_answer key res = elim (as_error res) [
  | some e ↦ err (formatted "failed to delete key '%s' due to ETag mismatch" (key ∷ []))
  | none ↦ ok tt
]

module _ {W : Type 0} (s : Server W) where
  -- The Lua script `setQuery` with KEYS[1], ARGV[1] and ARGV[2].
  pub set_query : String → String → String → W → Reply × W
  unfolding may_write
  set_query key argument content w =
      let version = s.hget key "version" w in
      let clear = if is_failure version then s.del key w else (nil, w) in
      call clear λ w'.
        if may_write version argument
        then call (s.hset key "data" content w') (s.hincrby key "version" 1)
        else (failure ("failed to set key " +s key), w')

  -- The Lua script `delQuery` with KEYS[1] and ARGV[1].
  pub del_query : String → String → W → Reply × W
  unfolding may_write
  del_query key argument w =
      if may_write (s.hget key "version" w) argument
      then s.del key w
      else (failure ("failed to delete " +s key), w)

  pub delete_value : DeleteRequest → Eff W (Unit {0})
  delete_value req w =
      let etag = if req.etag == "" then "0" else req.etag in
      let (res, w') = s.send (del_query req.key etag) w in (delete_answer req.key res, w')

  pub delete_item : DeleteRequest → Eff W (Unit {0})
  delete_item req = do
    lift (check_delete_request_options req)
    delete_with_retries s.sleep delete_value req

  pub bulk_delete : List DeleteRequest → Eff W (Unit {0})
  bulk_delete = for_each delete_item

-- `parseETag`
pub parse_etag : String → Result ℤ
parse_etag etag =
    if etag != ""
    then (elim (atoi etag) [ some v ↦ ok v | none ↦ err (external "strconv.Atoi") ])
    else ok (pos 0)

-- The error that `setValue` makes of the reply to its script.
pub set_answer : String → Reply → Result (Unit {0})
set_answer key res = elim (as_error res) [
  | some e ↦ err (wrapped "failed to set key %s: %s" (key ∷ []) e)
  | none ↦ ok tt
]

module _ {W V : Type 0} (s : Server W) (store : StateStore) (marshal : Value V → Result Bytes) where
  pub await_replicas : SetRequest V → Eff W (Unit {0})
  await_replicas req w =
      if req.options.consistency == strong && ltb 0 store.replicas
      then (let (res, w') = s.send (s.wait store.replicas 1000) w in
          (
            elim (as_error res) [
              | some e ↦ err (
                  formatted "timed out while waiting for %v replicas to acknowledge write"
                    (print_nat store.replicas ∷ []))
              | none ↦ ok tt
            ],
            w',
          ))
      else (ok tt, w)

  pub write_version : SetRequest V → ℤ → Eff W (Unit {0})
  write_version req version w =
      let argument = itoa (if req.options.concurrency == last_write then pos 0 else version) in
      let (res, w') = s.send (set_query s req.key argument (encode marshal req.value)) w in
      (set_answer req.key res, w')

  pub set_value : SetRequest V → Eff W (Unit {0})
  set_value req = do
    lift (check_set_request_options req)
    version ← lift (parse_etag req.etag)
    write_version req version
    await_replicas req

  pub set_item : SetRequest V → Eff W (Unit {0})
  set_item = set_with_retries s.sleep set_value

  pub bulk_set : List (SetRequest V) → Eff W (Unit {0})
  bulk_set = for_each set_item

  -- One command of a transaction; a Request of the wrong type makes the type assertion panic, and an
  -- operation that is neither Upsert nor Delete is skipped.
  pub queue : List (TransactionalRequest V) → Result (List (W → Reply × W))
  queue [] = ok []
  queue (upsert req ∷ os) =
      then_result (queue os) λ cs. ok (s.plain_set req.key (marshalled marshal req.value) ∷ cs)
  queue (delete req ∷ os) = then_result (queue os) λ cs. ok (s.del req.key ∷ cs)
  queue (mismatched ∷ os) = panic failed_type_assertion
  queue (unknown ∷ os) = queue os

  pub multi : List (TransactionalRequest V) → Eff W (Unit {0})
  multi operations = do commands ← lift (queue operations); s.transaction commands
