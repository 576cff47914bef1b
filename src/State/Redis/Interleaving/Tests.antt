-- ===== src/State/Redis/Interleaving/Tests.antt =====
-- The theorems about interleaved clients at concrete inputs, on the server in memory.
use components_contrib.Base.{
  ℕ, ◌≤◌, some, String, ◌≡◌, refl, ◌≢◌, ◌⊎◌, inl, inr, List, [], ◌∷◌, arith, eq_iff, Error, Result,
  ok, err,
}
use components_contrib.Base.Signed.{pos, Duration}
use components_contrib.State.Requests.{
  TransactionalRequest, upsert, Bytes, RetryPolicy, DeleteRequest, Value, bytes, SetRequest,
  last_write, strong,
}
use components_contrib.Base.Text.Decimal.{print_nat}
use components_contrib.State.Redis.{StateStore, bulk_set, set_item, multi, delete_value, set_value}
use components_contrib.State.Redis.Script.{IsAt, IsAbsent}
use components_contrib.State.Redis.Asking.{HasOptions}
use components_contrib.State.Redis.Versions.{set_value_new}
use components_contrib.State.Redis.Steps.{
  Keeps, Reach, start, next, stay, set_next, set_attempt, transact,
}
use components_contrib.State.Redis.Calls.{IsPlainSet}
use components_contrib.State.Redis.Bulk.{Leaves, last_content, bulk_set_last_counts}
use components_contrib.State.Redis.RoundTrip.{get_item-set_item}
use components_contrib.State.Redis.Response.{get_item}
use components_contrib.State.Redis.Reachable.{IsWellFormed}
use components_contrib.State.Redis.Recreation.{set_value_recreated}
use components_contrib.State.Redis.Interleaving.{no_lost_update}
use components_contrib.State.Redis.Invariant.{Reach-IsWellFormed}
use components_contrib.State.Redis.Concrete.{Memory, server, hash, server-IsConnected, hget}
use components_contrib.State.Redis.Concrete.Laws.{server-Documented, server-Transacts}

abbrev no_marshal : Value ℕ → Result Bytes
no_marshal v = ok ""

abbrev two_replicas : StateStore
two_replicas = record { replicas = 2 }

abbrev retries : RetryPolicy
retries = record { interval = 0; threshold = pos 0; pattern_name = "" }

-- Set key "a" to `content` for the version `etag`.
abbrev write_a : String → String → SetRequest ℕ
write_a etag content = record {
  key = "a";
  value = bytes content;
  etag = etag;
  metadata = [];
  options = record {
    concurrency = "first-write";
    consistency = "eventual";
    retry_policy = retries;
  };
}

-- Delete key "a" at version 1.
abbrev remove_a : DeleteRequest
remove_a = record {
  key = "a";
  etag = "1";
  options = record { concurrency = ""; consistency = ""; retry_policy = retries };
}

write_a-HasOptions : (etag content : String) → HasOptions (write_a etag content)
write_a-HasOptions etag content = record {
  known_concurrency = inr (inl refl);
  known_consistency = inr (inr refl);
}

first_not_last : ◌≢◌ {A = String} "first-write" last_write
first_not_last = ground (arith, eq_iff "first-write" last_write)

eventual_not_strong : ◌≢◌ {A = String} "eventual" strong
eventual_not_strong = ground (arith, eq_iff "eventual" strong)

abbrev no_keys : Memory
no_keys k = hash []

no_keys-IsAbsent : (k : String) → IsAbsent server k no_keys
unfolding hget
no_keys-IsAbsent k = record { no_version = refl; no_content = refl }

wait-Keeps : (n milliseconds : ℕ) (w : Memory) → Keeps server w (server.wait n milliseconds w).1
wait-Keeps n milliseconds w k f = refl

abbrev run : Memory → String → String → Memory
run w etag content = (set_value server two_replicas no_marshal (write_a etag content) w).1

once : Reach server two_replicas no_marshal 1 (run no_keys "" "x")
once = next _ (start no_keys no_keys-IsAbsent) (set_attempt (write_a "" "x"))

once-IsAt : IsAt server "a" 1 "x" (run no_keys "" "x")
once-IsAt =
    (set_value_new server two_replicas no_marshal server-IsConnected server-Documented
      (write_a "" "x") 0 no_keys (write_a-HasOptions "" "x") (inl eventual_not_strong)
      (inr (refl, refl)) (omega arith) (inl (no_keys-IsAbsent "a"))).1

-- A transaction that sets key "b" to 7.
abbrev set_b : List (TransactionalRequest ℕ)
set_b = upsert (record (write_a "" "7") { key = "b" }) ∷ []

Reach-IsWellFormed_example :
    IsWellFormed server 2 "b" (multi server two_replicas no_marshal set_b (run no_keys "" "x")).1
Reach-IsWellFormed_example =
    Reach-IsWellFormed server two_replicas no_marshal server-IsConnected server-Documented
      server-Transacts wait-Keeps 2
      (multi server two_replicas no_marshal set_b (run no_keys "" "x")).1 (omega arith)
      (next _ once (transact set_b)) "b"

no_lost_update_example :
    IsAt server "a" 1 "x" (run (run no_keys "" "x") "1" "y")
    ⊎ ((e : Error) × (set_value server two_replicas no_marshal
            (write_a "1" "z")
            (run (run no_keys "" "x") "1" "y")
          ≡ (err e, run (run no_keys "" "x") "1" "y")))
unfolding print_nat
no_lost_update_example =
    no_lost_update server two_replicas no_marshal server-IsConnected server-Documented
      server-Transacts wait-Keeps 1 1 (run no_keys "" "x") (run (run no_keys "" "x") "1" "y")
      (write_a "1" "z") 1 "x" (omega arith) once once-IsAt (set_next (write_a "1" "y") stay)
      (write_a-HasOptions "1" "z") (inl eventual_not_strong) refl first_not_last

write_a-IsPlainSet : IsPlainSet two_replicas (write_a "" "z")
write_a-IsPlainSet = record {
  options = write_a-HasOptions "" "z";
  waits_not = inl eventual_not_strong;
  known_pattern = inl refl;
}

sleep-Keeps : (d : Duration) (w : Memory) → Keeps server w (server.sleep d w)
sleep-Keeps d w k f = refl

get_item-set_item_example :
    let w' = (set_item server two_replicas no_marshal (write_a "" "z") (run no_keys "" "x")).1 in
    ((set_item server two_replicas no_marshal (write_a "" "z") (run no_keys "" "x")).0 ≡ ok tt)
    × ((v : ℕ) × (1 ≤ v)
        × (v ≤ 2)
        × (get_item server (record { key = "a"; options = record { consistency = "" } }) w'
            ≡ (ok (some (record { payload = "z"; etag = print_nat v; metadata = [] })), w')))
get_item-set_item_example =
    get_item-set_item server two_replicas no_marshal server-IsConnected server-Documented
      sleep-Keeps server-Transacts wait-Keeps 1 (run no_keys "" "x") (write_a "" "z")
      (record { key = "a"; options = record { consistency = "" } }) (omega arith) once
      write_a-IsPlainSet (inr (refl, refl)) refl

-- Key "a" set twice, key "b" once.
abbrev three_sets : List (SetRequest ℕ)
three_sets = write_a "" "1" ∷ record (write_a "" "2") { key = "b" } ∷ write_a "0" "3" ∷ []

write-IsPlainSet :
    (key etag content : String)
    → IsPlainSet two_replicas (record (write_a etag content) { key = key })
write-IsPlainSet key etag content = record {
  options = record { known_concurrency = inr (inl refl); known_consistency = inr (inr refl) };
  waits_not = inl eventual_not_strong;
  known_pattern = inl refl;
}

bulk_set_last_counts_example :
    ((bulk_set server two_replicas no_marshal three_sets (run no_keys "" "x")).0 ≡ ok tt)
    × ((key : String)
        → Leaves server two_replicas no_marshal
            (last_content no_marshal key three_sets)
            key
            (run no_keys "" "x")
            (bulk_set server two_replicas no_marshal three_sets (run no_keys "" "x")).1)
unfolding print_nat
bulk_set_last_counts_example =
    bulk_set_last_counts server two_replicas no_marshal server-IsConnected server-Documented
      sleep-Keeps server-Transacts wait-Keeps 1 three_sets (run no_keys "" "x") (omega arith) once
      (
        (write-IsPlainSet "a" "" "1", inr (refl, refl)),
        (
          (write-IsPlainSet "b" "" "2", inr (refl, refl)),
          ((write-IsPlainSet "a" "0" "3", inl refl), tt),
        ),
      )

set_value_recreated_example :
    let w1 = (delete_value server remove_a (run no_keys "" "x")).1 in
    let w2 = run w1 "" "y" in
    ((delete_value server remove_a (run no_keys "" "x")).0 ≡ ok tt)
    × ((set_value server two_replicas no_marshal (write_a "" "y") w1).0 ≡ ok tt)
    × IsAt server "a" 1 "y" w2
    × ((set_value server two_replicas no_marshal (write_a "1" "z") w2).0 ≡ ok tt)
    × IsAt server "a" 2 "z" (run w2 "1" "z")
unfolding print_nat
set_value_recreated_example =
    set_value_recreated server two_replicas no_marshal server-IsConnected server-Documented
      (write_a "1" "z") (write_a "" "y") remove_a "x" (run no_keys "" "x")
      (write_a-HasOptions "1" "z") (inl eventual_not_strong) (write_a-HasOptions "" "y")
      (inl eventual_not_strong) refl refl refl refl refl once-IsAt
