-- ===== src/State/Zookeeper/Tests.antt =====
-- The theorems about the Zookeeper store at concrete inputs, on nodes in memory.
use components_contrib.Base.{
  ℕ, zero, suc, ◌+◌, ◌-◌, ◌*◌, ◌/◌, ◌%◌, ◌^◌, ◌≤◌, ◌<◌, String, ◌≡◌, refl, sym, ap, ◌∙◌, ◌≢◌, ◌↔◌,
  ◌⊎◌, inl, inr, Bool, true, false, not, ◌&&◌, ◌||◌, Option, none, some, List, [], ◌∷◌, ◌++◌, map,
  arith, eq_iff, eq_refl, ltb, leb, nat_eq, ◌==◌, ◌!=◌, if◌then◌else◌, Bool-cases, Option-cases,
  length, All, Error, created, formatted, wrapped, external, joined, appended, Panic,
  nil_dereference, index_out_of_range, failed_type_assertion, Result, ok, err, panic, then_result,
  map_error, Succeeds, Panics, Result-cases,
}
use components_contrib.Base.Signed.{ℤ, pos, negsuc, to_int32, Duration}
use components_contrib.Base.Text.{◌+s◌, split, split_lines, contains, slice_from, parse_bool}
use components_contrib.Base.Text.Decimal.{atoi, print_nat, itoa}
use components_contrib.State.Requests.{
  Bytes, RetryPolicy, GetRequest, DeleteRequest, Value, bytes, other, SetRequest,
}
use components_contrib.State.Options.{check_set_request_options, check_delete_request_options}
use components_contrib.State.Zookeeper.{
  Op, set_data_op, create_op, removal_op, Failure, no_node, failure, error_of, Conn, Config,
  multi_answers, Outcome, done, refused, collect_ops, new_set_data_request, new_delete_request,
  bulk_set, bulk_delete, parse_etag, set_item, any_version,
}
use components_contrib.State.Zookeeper.Versions.{parse_etag-itoa}
use components_contrib.State.Zookeeper.Rounds.{bulk_set_ends}
use components_contrib.State.Zookeeper.Answers.{
  bulk_delete_answers, bulk_set_single_round, IsHarmless,
}

abbrev Nodes : Type 0
Nodes = List (String × Bytes × ℕ)

abbrev find : Nodes → String → Option (Bytes × ℕ)
find [] p = none
find ((q, d, v) ∷ ns) p = if q == p then some (d, v) else find ns p

abbrev fits : ℤ → ℕ → Bool
fits (pos n) v = nat_eq n v
fits (negsuc n) v = true

abbrev bad_version : Failure
bad_version = failure (external "zk: version conflict")

abbrev update : String → Bytes → ℤ → Nodes → Outcome (Unit {0}) × Nodes
update p d x [] = (refused no_node, [])
update p d x ((q, e, v) ∷ ns) =
    let rest = update p d x ns in
    if q == p
    then (if fits x v then (done tt, (q, d, v + 1) ∷ ns) else (refused bad_version, (q, e, v) ∷ ns))
    else (rest.0, (q, e, v) ∷ rest.1)

abbrev drop : String → ℤ → Nodes → Outcome (Unit {0}) × Nodes
drop p x [] = (refused no_node, [])
drop p x ((q, e, v) ∷ ns) =
    let rest = drop p x ns in
    if q == p
    then (if fits x v then (done tt, ns) else (refused bad_version, (q, e, v) ∷ ns))
    else (rest.0, (q, e, v) ∷ rest.1)

abbrev answer : Outcome (Unit {0}) → Option Failure
answer (done u) = none
answer (refused f) = some f

abbrev run : Op → Nodes → Option Failure × Nodes
run (set_data_op r) ns = let o = update r.path r.content r.version ns in (answer o.0, o.1)
run (create_op r) ns = (none, (r.path, r.content, 0) ∷ ns)
run (removal_op r) ns = let o = drop r.path r.version ns in (answer o.0, o.1)

abbrev run_all : List Op → Nodes → List (Option Failure) × Nodes
run_all [] ns = ([], ns)
run_all (o ∷ os) ns =
    let first = run o ns in let rest = run_all os first.1 in (first.0 ∷ rest.0, rest.1)

abbrev look : Option (Bytes × ℕ) → Outcome (Bytes × ℤ)
look none = refused no_node
look (some (d, v)) = done (d, pos v)

abbrev memory : Conn Nodes
memory = record {
  create = λ p d flags acl ns. elim acl [
    | [] ↦ (refused (failure (external "zk: invalid ACL specified")), ns)
    | a ∷ rest ↦ (done tt, (p, d, 0) ∷ ns)
  ];
  get = λ p ns. (look (find ns p), ns);
  set = update;
  remove = drop;
  multi = λ ops ns. (((run_all ops ns).0, none), (run_all ops ns).1);
}

abbrev json : Value ℕ → Result Bytes
json (bytes b) = ok b
json (other n) = ok (print_nat n)

abbrev under_dapr : Config
under_dapr = record {
  servers = "zk:2181" ∷ [];
  session_timeout = 5;
  max_buffer_size = pos 1;
  max_conn_buffer_size = pos 1;
  key_prefix_path = "/dapr";
}

abbrev no_retries : RetryPolicy
no_retries = record { interval = 0; threshold = pos 0; pattern_name = "" }

abbrev put : String → String → SetRequest ℕ
put key etag = record {
  key = key;
  value = bytes "new";
  etag = etag;
  metadata = [];
  options = record { concurrency = "first-write"; consistency = ""; retry_policy = no_retries };
}

abbrev removal : String → DeleteRequest
removal key = record {
  key = key;
  etag = "";
  options = record { concurrency = "last-write"; consistency = ""; retry_policy = no_retries };
}

abbrev at_three : Nodes
at_three = ("/dapr/a", "old", 3) ∷ []

abbrev no_sleep : Duration → Nodes → Nodes
no_sleep t ns = ns

set_a_and_b :
    bulk_set memory (some under_dapr) no_sleep json 2 (put "a" "3" ∷ put "b" "" ∷ []) at_three
    ≡ some (ok tt, ("/dapr/b", "new", 0) ∷ ("/dapr/a", "new", 4) ∷ [])
unfolding bulk_set multi_answers check_set_request_options components_contrib.Base.Text.Slashes.join
    split atoi to_int32
set_a_and_b = refl

set_stale :
    set_item memory (some under_dapr) no_sleep json (put "a" "2") at_three
    ≡ (err (external "zk: version conflict"), at_three)
unfolding set_item check_set_request_options components_contrib.State.Retry.set_with_retries
    components_contrib.Base.Text.Slashes.join split atoi to_int32
set_stale = refl

bulk_set_ends_example :
    (bulk_set memory (some under_dapr) no_sleep json 5 (put "a" "3" ∷ put "b" "" ∷ []) at_three
      ≡ bulk_set memory (some under_dapr) no_sleep json 2 (put "a" "3" ∷ put "b" "" ∷ []) at_three)
    × (bulk_set memory (some under_dapr) no_sleep json 2 (put "a" "3" ∷ put "b" "" ∷ []) at_three
        ≢ none)
bulk_set_ends_example =
    bulk_set_ends memory (some under_dapr) no_sleep json 3 (put "a" "3" ∷ put "b" "" ∷ []) at_three

parse_etag-itoa_example : parse_etag (itoa (pos 4294967295)) ≡ to_int32 (pos 4294967295)
parse_etag-itoa_example = parse_etag-itoa (pos 4294967295) (omega arith)

wraps_to_any_version : parse_etag "4294967295" ≡ any_version
unfolding parse_etag atoi to_int32
wraps_to_any_version = refl

abbrev got_a : GetRequest
got_a = record { key = "a"; options = record { consistency = "" } }

abbrev removals : List Op
removals =
    removal_op (record { path = "/dapr/a"; version = any_version })
    ∷ removal_op (record { path = "/dapr/b"; version = any_version })
    ∷ []

bulk_delete_answers_example :
    ((bulk_delete memory (some under_dapr) no_sleep (removal "a" ∷ removal "b" ∷ []) at_three).0
      ≡ ok tt)
    ↔ All IsHarmless (none ∷ some no_node ∷ [])
unfolding collect_ops new_delete_request check_delete_request_options
    components_contrib.Base.Text.Slashes.join split multi_answers
bulk_delete_answers_example =
    bulk_delete_answers memory (some under_dapr) no_sleep (removal "a" ∷ removal "b" ∷ []) removals
      (none ∷ some no_node ∷ []) at_three refl refl

-- The same nodes behind a client that does the operations of a Multi together or not at all, and gives
-- the first error among the answers for the error of the call.
abbrev first_error : List (Option Failure) → Option Error
first_error [] = none
first_error (none ∷ rs) = first_error rs
first_error (some f ∷ rs) = some (error_of f)

abbrev atomic : Conn Nodes
atomic = record {
  create = memory.create;
  get = memory.get;
  set = memory.set;
  remove = memory.remove;
  multi = λ ops ns.
      let (rs, ns') = run_all ops ns in
      ((rs, first_error rs), elim (first_error rs) [ none ↦ ns' | some e ↦ ns ]);
}

first_error-none : (rs : List (Option Failure)) → first_error rs ≡ none → All (λ r. r ≡ none) rs
first_error-none [] h = tt
first_error-none (none ∷ rs) h = (refl, first_error-none rs h)
first_error-none (some f ∷ rs) h = cc

abbrev sets : List Op
sets =
    set_data_op (record { path = "/dapr/a"; content = "new"; version = pos 3 })
    ∷ set_data_op (record { path = "/dapr/b"; content = "new"; version = any_version })
    ∷ []

bulk_set_single_round_example :
    bulk_set atomic (some under_dapr) no_sleep json 2 (put "a" "3" ∷ put "b" "" ∷ []) at_three
    ≡ some (err (external "zk: node does not exist"), at_three)
unfolding collect_ops new_set_data_request check_set_request_options
    components_contrib.Base.Text.Slashes.join atoi split to_int32
bulk_set_single_round_example =
    bulk_set_single_round atomic (some under_dapr) no_sleep json (put "a" "3" ∷ put "b" "" ∷ [])
      sets 1 at_three (λ ops w h. first_error-none (run_all ops w).0 h) refl
