-- ===== src/State/Cassandra/Tests.antt =====
-- The theorem about the Cassandra store at a concrete input, on tables in memory.
use components_contrib.Base.{
  ℕ, ◌+◌, ◌-◌, String, refl, none, List, [], ◌∷◌, if◌then◌else◌, external, Result, ok, err,
}
use components_contrib.Base.Effect.{Eff}
use components_contrib.State.Requests.{
  Bytes, GetRequest, DeleteRequest, Value, bytes, other, SetRequest,
}
use components_contrib.Base.Signed.{pos}
use components_contrib.Base.Text.Decimal.{print_nat}
use components_contrib.State.Cassandra.{
  Session, Driver, Cassandra, ClusterConfig, all, get_item, set_item, delete_item,
}
use components_contrib.State.Cassandra.Sessions.{
  Documented, IsSession, IsRefused, binds_table, requests-IsRefused,
}

abbrev json : Value ℕ → Result Bytes
json (bytes b) = ok b
json (other n) = ok (print_nat n)

abbrev Table : Type 0
Table = List (String × Bytes)

-- One keyspace with one table, and what has been done with sessions.
abbrev World : Type 0
World = Table × ℕ

abbrev refuse_bound_table : {A : Type 0} → String → A → Eff World A
refuse_bound_table statement a w =
    if binds_table statement
    then (err (external "no viable alternative at input '?'"), w)
    else (ok a, w)

abbrev memory : Session World
memory = record {
  exec = λ q values. refuse_bound_table q tt;
  slice_map = λ q values. refuse_bound_table q [];
  set_consistency = λ k w. w;
  close = λ (t, n). (t, n - 1);
}

abbrev driver : Driver World
driver = record { create_session = λ config (t, n). (ok memory, (t, n + 1)) }

abbrev cluster : ClusterConfig
cluster = record {
  hosts = "a" ∷ [];
  authenticator = none;
  proto_version = pos 4;
  consistency = all;
}

abbrev store : Cassandra World
store = record { session = memory; cluster = cluster; table = "dapr.items" }

abbrev rows : World → Table
rows w = w.0

memory-IsSession : IsSession rows memory
memory-IsSession = record {
  exec_refused = λ q values w h. rw (memory, h) ((_, refl), refl);
  slice_map_refused = λ q values w h. rw (memory, h) ((_, refl), refl);
}

abbrev memory-Documented : Documented driver store memory rows
memory-Documented = record {
  store_session = memory-IsSession;
  own_session = memory-IsSession;
  create_reply = λ w. refl;
  create_keeps = λ w. refl;
  consistency_keeps = λ k w. refl;
  close_keeps = λ w. refl;
}

abbrev put : String → String → String → SetRequest ℕ
put key content consistency = record {
  key = key;
  value = bytes content;
  etag = "";
  metadata = [];
  options = record {
    concurrency = "";
    consistency = consistency;
    retry_policy = record { interval = 0; threshold = pos 0; pattern_name = "" };
  };
}

abbrev get_a : GetRequest
get_a = record { key = "a"; options = record { consistency = "eventual" } }

abbrev drop_a : DeleteRequest
drop_a = record {
  key = "a";
  etag = "";
  options = record {
    concurrency = "";
    consistency = "";
    retry_policy = record { interval = 0; threshold = pos 0; pattern_name = "" };
  };
}

requests-IsRefused_example :
    IsRefused rows ([], 0) (set_item driver store json (put "a" "1" "strong") ([], 0))
    × IsRefused rows ([], 0) (get_item driver store get_a ([], 0))
    × IsRefused rows ([], 0) (delete_item driver store drop_a ([], 0))
requests-IsRefused_example =
    requests-IsRefused driver store memory json rows memory-Documented (put "a" "1" "strong") get_a
      drop_a ([], 0)
