-- ===== src/State/Redis/Tests.antt =====
-- The theorems about the Redis store at concrete inputs, on the server in memory.
use components_contrib.Base.{
  ℕ, ◌+◌, String, ◌≡◌, refl, ◌≢◌, ◌⊎◌, inl, inr, true, false, none, some, List, [], ◌∷◌, arith,
  eq_iff, Error, Result, ok, err,
}
use components_contrib.State.Redis.{
  is_failure, StateStore, set_query, delete_item, set_value, set_item, multi,
}
use components_contrib.Base.Text.{◌+s◌}
use components_contrib.State.Requests.{
  Bytes, RetryPolicy, GetRequest, DeleteRequest, Value, bytes, other, SetRequest,
  TransactionalRequest, upsert, delete, last_write, strong,
}
use components_contrib.State.Retry.Constant.{Fails}
use components_contrib.Base.Signed.{pos, Duration}
use components_contrib.Base.Text.Decimal.{print_nat}
use components_contrib.State.Redis.Script.{IsAt, IsAbsent, KeepsOthers}
use components_contrib.State.Redis.Asking.{HasOptions, Takes, asked}
use components_contrib.State.Redis.Replication.{set_value_replicated}
use components_contrib.State.Redis.Steps.{Keeps}
use components_contrib.State.Redis.Calls.{
  IsPlainSet, HasDeleteOptions, IsStale, set_item_by_version, set_item_new, delete_item_by_version,
}
use components_contrib.State.Redis.Response.{get_item}
use components_contrib.State.Redis.Response.Transactions.{answered, last_effect, multi-get_item}
use components_contrib.State.Redis.Concrete.{Memory, server, server-IsConnected, start, hget}
use components_contrib.State.Redis.Concrete.Laws.{server-Documented, server-Transacts}

abbrev json : Value ℕ → Result Bytes
json (bytes b) = ok b
json (other n) = ok (print_nat n)

abbrev single : StateStore
single = record { replicas = 0 }

abbrev no_retries : RetryPolicy
no_retries = record { interval = 0; threshold = pos 0; pattern_name = "" }

-- Set key "a" to `content` for the version `etag`.
abbrev put : String → String → SetRequest ℕ
put etag content = record {
  key = "a";
  value = bytes content;
  etag = etag;
  metadata = [];
  options = record {
    concurrency = "first-write";
    consistency = "eventual";
    retry_policy = no_retries;
  };
}

abbrev drop : String → DeleteRequest
drop etag = record {
  key = "a";
  etag = etag;
  options = record { concurrency = "last-write"; consistency = ""; retry_policy = no_retries };
}

put-HasOptions : (etag content : String) → HasOptions (put etag content)
put-HasOptions etag content = record {
  known_concurrency = inr (inl refl);
  known_consistency = inr (inr refl);
}

not_last : ◌≢◌ {A = String} "first-write" last_write
not_last = ground (arith, eq_iff "first-write" last_write)

not_strong : ◌≢◌ {A = String} "eventual" strong
not_strong = ground (arith, eq_iff "eventual" strong)

start-IsAt : IsAt server "a" 3 "x" start
unfolding hget print_nat
start-IsAt = record { at_version = refl; at_content = refl }

put-IsPlainSet : (etag content : String) → IsPlainSet single (put etag content)
put-IsPlainSet etag content = record {
  options = put-HasOptions etag content;
  waits_not = inl not_strong;
  known_pattern = inl refl;
}

drop-HasDeleteOptions : (etag : String) → HasDeleteOptions (drop etag)
drop-HasDeleteOptions etag = record {
  known_concurrency = inr (inr refl);
  known_consistency = inl refl;
  known_pattern = inl refl;
}

sleep-Keeps : (d : Duration) (w : Memory) → Keeps server w (server.sleep d w)
sleep-Keeps d w k f = refl

set_item_by_version_example :
    (Takes (put "2" "y") 2 3
      × (((set_item server single json (put "2" "y") start).0 ≡ ok tt)
          × IsAt server "a" (3 + 1) "y" (set_item server single json (put "2" "y") start).1
          × KeepsOthers server "a" start (set_item server single json (put "2" "y") start).1))
    ⊎ (IsStale (put "2" "y") 2 3
        × Fails (Keeps server start) (set_item server single json (put "2" "y") start))
unfolding print_nat
set_item_by_version_example =
    set_item_by_version server single json server-IsConnected server-Documented sleep-Keeps
      (put "2" "y") 2 3 "x" start (put-IsPlainSet "2" "y") (inl refl) (omega arith) (omega arith)
      start-IsAt

abbrev three : ℕ
three = 3

delete_item_by_version_example :
    (((three ≡ three) ⊎ (three ≡ 0))
      × (((delete_item server (drop "3") start).0 ≡ ok tt)
          × IsAbsent server "a" (delete_item server (drop "3") start).1
          × KeepsOthers server "a" start (delete_item server (drop "3") start).1))
    ⊎ ((three ≢ three)
        × (three ≢ 0)
        × Fails (Keeps server start) (delete_item server (drop "3") start))
unfolding print_nat
delete_item_by_version_example =
    delete_item_by_version server single json server-IsConnected server-Documented sleep-Keeps
      (drop "3") 3 3 "x" start (drop-HasDeleteOptions "3") (inl refl) start-IsAt

-- Key "a" set and deleted again, key "b" set twice.
abbrev changes : List (TransactionalRequest ℕ)
changes =
    upsert (put "" "y")
    ∷ upsert (record (put "" "1") { key = "b" })
    ∷ delete (drop "")
    ∷ upsert (record (put "" "2") { key = "b" })
    ∷ []

-- A codec that writes a byte slice as a text in quotes.
abbrev quoted : Value ℕ → Result Bytes
quoted (bytes b) = ok ("\"" +s b +s "\"")
quoted (other n) = json (other n)

multi-get_item_example :
    ((multi server single quoted changes start).0 ≡ ok tt)
    × ((got : GetRequest)
        → (get_item server got (multi server single quoted changes start).1).0
          ≡ answered (last_effect quoted got.key changes) (get_item server got start).0)
multi-get_item_example =
    multi-get_item server single quoted server-IsConnected server-Transacts changes start
      (tt, (tt, (tt, (tt, tt))))

-- What the effects in this transaction are.
changes_effects :
    (last_effect quoted "a" changes ≡ some none)
    × (last_effect quoted "b" changes ≡ some (some "\"2\""))
    × (last_effect quoted "c" changes ≡ none)
unfolding last_effect
changes_effects = (refl, refl, refl)

set_item_new_example :
    ((set_item server single json (record (put "7" "y") { key = "b" }) start).0 ≡ ok tt)
    × IsAt server "b" 1 "y"
        (set_item server single json (record (put "7" "y") { key = "b" }) start).1
    × KeepsOthers server "b" start
        (set_item server single json (record (put "7" "y") { key = "b" }) start).1
unfolding print_nat hget
set_item_new_example =
    set_item_new server single json server-IsConnected server-Documented sleep-Keeps
      (record (put "7" "y") { key = "b" }) 7 start
      (record {
        options = record { known_concurrency = inr (inl refl); known_consistency = inr (inr refl) };
        waits_not = inl not_strong;
        known_pattern = inl refl;
      })
      (inl refl) (omega arith) (inl (record { no_version = refl; no_content = refl }))

abbrev replicated : StateStore
replicated = record { replicas = 2 }

abbrev put_strong : SetRequest ℕ
put_strong = record (put "3" "y") {
  options = record {
    concurrency = "first-write";
    consistency = "strong";
    retry_policy = no_retries;
  };
}

wait-Keeps : (n milliseconds : ℕ) (w : Memory) → Keeps server w (server.wait n milliseconds w).1
wait-Keeps n milliseconds w k f = refl

set_value_replicated_example :
    let r = set_value server replicated json put_strong start in
    let w1 = (set_query server "a" (asked put_strong 3) "y" start).1 in
    let reply = (server.wait 2 1000 w1).0 in
    IsAt server "a" (3 + 1) "y" r.1
    × KeepsOthers server "a" start r.1
    × (((is_failure reply ≡ true) × ((e : Error) × (r.0 ≡ err e)))
        ⊎ ((is_failure reply ≡ false) × (r.0 ≡ ok tt)))
unfolding print_nat
set_value_replicated_example =
    set_value_replicated server replicated json server-IsConnected server-Documented wait-Keeps
      put_strong 3 3 "x" start
      (record { known_concurrency = inr (inl refl); known_consistency = inr (inl refl) })
      (refl, omega arith) (inl refl) (omega arith) (omega arith) start-IsAt (inl refl)
