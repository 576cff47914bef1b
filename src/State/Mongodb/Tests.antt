-- ===== src/State/Mongodb/Tests.antt =====
-- The theorems about the MongoDB store at concrete inputs, on a table in memory.
use components_contrib.Base.{
  ℕ, zero, suc, String, ◌≡◌, refl, Option, none, some, List, [], ◌∷◌, Error, external, Result, ok,
  err,
}
use components_contrib.Base.Effect.{Eff, pure, for_each}
use components_contrib.Base.Signed.{pos, Duration}
use components_contrib.Base.Text.Decimal.{print_nat}
use components_contrib.State.Requests.{
  Bytes, Metadata, RetryPolicy, GetRequest, DeleteRequest, Value, bytes, other, SetRequest, upsert,
  delete, unknown,
}
use components_contrib.State.Memory.{find, insert, erase}
use components_contrib.State.Mongodb.{
  Collection, Context, within, in_session, Client, MongoDb, get_item, set_item, delete_item, multi,
}
use components_contrib.State.Mongodb.Settings.{init}
use components_contrib.State.Mongodb.Laws.{Expires, init_leaves_no_time}

abbrev json : Value ℕ → Result Bytes
json (bytes b) = ok b
json (other n) = ok (print_nat n)

abbrev no_retries : RetryPolicy
no_retries = record { interval = 0; threshold = pos 0; pattern_name = "" }

abbrev put_five : SetRequest ℕ
put_five = record {
  key = "a";
  value = other 5;
  etag = "";
  metadata = [];
  options = record { concurrency = ""; consistency = ""; retry_policy = no_retries };
}

abbrev get_a : GetRequest
get_a = record { key = "a"; options = record { consistency = "" } }

abbrev drop_a : DeleteRequest
drop_a = record {
  key = "a";
  etag = "";
  options = record { concurrency = ""; consistency = ""; retry_policy = no_retries };
}

abbrev Table : Type 0
Table = List (String × Bytes)

abbrev deadline : Error
deadline = external "context deadline exceeded"

-- Does a call that has time left.
abbrev timed : {A : Type 0} → Context → Eff Table A → Eff Table A
timed (within zero) m w = (err deadline, w)
timed (within (suc n)) m w = m w
timed in_session m w = m w

abbrev found : Option Bytes → Result String
found none = err (external "mongo: no documents in result")
found (some b) = ok b

abbrev memory : Collection Table
memory = record {
  update_one = λ ctx k b. timed ctx (λ t. (ok tt, insert k b t));
  find_one = λ ctx k. timed ctx (λ t. (found (find t k), t));
  delete_one = λ ctx k. timed ctx (λ t. (ok tt, erase k t));
}

abbrev client : Client Table
client = record {
  collection = λ d c wc rc. memory;
  start_session = pure tt;
  with_transaction = λ body. body;
  abort_transaction = λ w. w;
  end_session = λ w. w;
}

abbrev store : MongoDb Table
store = record { client = client; collection = memory; operation_timeout = 5 }

abbrev memory-Expires : Expires memory
memory-Expires = record {
  deadline_exceeded = deadline;
  update_expired = λ k b w. refl;
  find_expired = λ k w. refl;
  delete_expired = λ k w. refl;
}

abbrev seconds : String → Result Duration
seconds s = ok 5000000000

abbrev metadata : Metadata
metadata = record { properties = ("host", "mongo:27017") ∷ ("operationTimeout", "5s") ∷ [] }

abbrev started : MongoDb Table
started = record { client = client; collection = memory; operation_timeout = 0 }

init_leaves_no_time_example :
    (set_item started json put_five [] ≡ (err deadline, []))
    × (get_item started get_a [] ≡ (err deadline, []))
    × (delete_item started drop_a [] ≡ (err deadline, []))
unfolding init
init_leaves_no_time_example =
    init_leaves_no_time seconds (λ t uri. pure client) json metadata [] [] started memory-Expires
      put_five get_a drop_a refl

transaction : multi store json (upsert put_five ∷ unknown ∷ delete drop_a ∷ []) [] ≡ (ok tt, [])
unfolding multi for_each
transaction = refl
