-- ===== src/State/Etcd/Tests.antt =====
-- The theorems about the etcd store at concrete inputs, on a table in memory.
use components_contrib.Base.{
  ℕ, ◌+◌, String, ◌≡◌, refl, ap, ◌≢◌, Bool, ◌&&◌, Option, none, some, List, [], ◌∷◌, leb, ◌!=◌,
  Result, ok,
}
use components_contrib.Base.Effect.{for_each}
use components_contrib.Base.Signed.{pos}
use components_contrib.Base.Text.Decimal.{print_nat}
use components_contrib.State.Requests.{
  Bytes, RetryPolicy, GetRequest, DeleteRequest, Value, bytes, other, SetRequest, encode,
}
use components_contrib.State.Memory.{
  find, insert, erase, find-insert_self, find-insert_ne, find-erase_self, find-erase_ne,
}
use Prim.Native.String.{len}
use components_contrib.State.Contents.Replay.{
  Call, bulk_call, get_call, remove_call, done, got, calls, replay,
}
use components_contrib.State.Contents.{payload_of, put_all, for_each-put_all, get_set}
use components_contrib.State.Etcd.{
  Client, Etcd, KeyValue, default_operation_timeout, get_item, set_item, bulk_set, delete_item,
}
use components_contrib.State.Etcd.Laws.{
  Documented, sent, value_in, kept, etcd-Implements, etcd_calls-replay,
}

abbrev json : Value ℕ → Result Bytes
json (bytes b) = ok b
json (other n) = ok (print_nat n)

abbrev no_retries : RetryPolicy
no_retries = record { interval = 0; threshold = pos 0; pattern_name = "" }

abbrev put_five : SetRequest ℕ
put_five = record {
  key = "a";
  value = other 5;
  etag = "";
  metadata = [];
  options = record { concurrency = ""; consistency = ""; retry_policy = no_retries };
}

abbrev get_a : GetRequest
get_a = record { key = "a"; options = record { consistency = "" } }

abbrev drop_a : DeleteRequest
drop_a = record {
  key = "a";
  etag = "";
  options = record { concurrency = ""; consistency = ""; retry_policy = no_retries };
}

abbrev Table : Type 0
Table = List (String × KeyValue)

abbrev version_in : Option KeyValue → ℕ
version_in none = 0
version_in (some kv) = kv.version

abbrev memory : Client Table
memory = record {
  get = λ time k t. (ok (sent (find t k)), t);
  put =
      λ time k b t. (ok tt, insert k (record { value = b; version = version_in (find t k) + 1 }) t);
  remove = λ time k t. (ok tt, erase k t);
}

abbrev store : Etcd Table
store = record { client = memory; operation_timeout = default_operation_timeout }

abbrev small : String → Bytes → Bool
small k b = k != "" && leb (len b) 1500000

abbrev memory-Documented : Documented memory default_operation_timeout
memory-Documented = record {
  stored = find;
  may_put = small;
  get_reply = λ k w ne. refl;
  put_reply = λ k b w h. refl;
  put_self = λ k b w h. ap value_in (find-insert_self w k _);
  put_ne = λ k j b w ne. find-insert_ne w k j _ ne;
  remove_reply = λ k w ne. refl;
  remove_self = λ k w ne. find-erase_self w k;
  remove_ne = λ k j w ne. find-erase_ne w k j ne;
}

abbrev client : List (Call ℕ)
client =
    bulk_call (put_five ∷ put_five ∷ []) ∷ get_call get_a ∷ remove_call drop_a ∷ get_call get_a ∷ []

not_empty : get_a.key ≢ ""
not_empty p = cc

etcd_calls-replay_example :
    let r =
      calls
        (set_item store json)
        (bulk_set store json)
        (delete_item store)
        (get_item store)
        client
        [] in
    let m = replay (λ req. encode json req.value) (some "") client (kept memory-Documented []) in
    (r.0 ≡ m.0) × (kept memory-Documented r.1 ≡ m.1)
unfolding print_nat
etcd_calls-replay_example =
    etcd_calls-replay store json memory-Documented client []
      ((refl, (refl, tt)), (not_empty, ((not_empty, ("5", refl)), (not_empty, tt))))

client_sees :
    (replay (λ req. encode json req.value) (some "") client (kept memory-Documented [])).0
    ≡ done ∷ got (some "5") ∷ done ∷ got (some "") ∷ []
unfolding replay print_nat
client_sees = refl

set_then_get : get_item store get_a (set_item store json put_five []).1 ≡ (
  ok (some (record { payload = "5"; etag = "1"; metadata = [] })),
  ("a", record { value = "5"; version = 1 }) ∷ [],
)
unfolding get_item set_item print_nat
set_then_get = refl

get_after_set : payload_of (get_item store get_a (set_item store json put_five []).1).0 ≡ some "5"
unfolding print_nat
get_after_set =
    get_set (etcd-Implements store json memory-Documented) put_five get_a [] refl not_empty refl

bulk_of_two :
    ((for_each (set_item store json) (put_five ∷ put_five ∷ []) []).0 ≡ ok tt)
    × (kept memory-Documented (for_each (set_item store json) (put_five ∷ put_five ∷ []) []).1
        ≡ put_all
            (λ req. encode json req.value)
            (put_five ∷ put_five ∷ [])
            (kept memory-Documented []))
unfolding print_nat
bulk_of_two =
    for_each-put_all (etcd-Implements store json memory-Documented) (put_five ∷ put_five ∷ []) []
      (refl, (refl, tt))
