-- ===== src/State/Zookeeper.antt =====
-- state/zookeeper/zk.go: the Zookeeper state store. The connection and the JSON codec are parameters.
pub mod Versions
pub mod Laws
pub mod Writes
pub mod Removals
pub mod Interleaving
pub mod Rounds
pub mod Answers
mod Tests
use components_contrib.Base.Text.{split}
use components_contrib.Base.Text.Decimal.{atoi, itoa}
use components_contrib.Base.{
  ℕ, zero, suc, ◌+◌, ◌-◌, ◌*◌, ◌/◌, ◌%◌, ◌^◌, ◌≤◌, ◌<◌, String, ◌≡◌, refl, sym, ap, ◌∙◌, ◌≢◌, ◌↔◌,
  ◌⊎◌, inl, inr, Bool, true, false, not, ◌&&◌, ◌||◌, Option, none, some, List, [], ◌∷◌, ◌++◌, map,
  arith, eq_iff, eq_refl, ltb, leb, nat_eq, ◌==◌, ◌!=◌, if◌then◌else◌, Bool-cases, Option-cases,
  length, All, Error, created, formatted, wrapped, external, joined, appended, Panic,
  nil_dereference, index_out_of_range, failed_type_assertion, Result, ok, err, panic, then_result,
  map_error, Succeeds, Panics, Result-cases,
}
use components_contrib.Base.Text.Slashes.{join}
use components_contrib.Base.Effect.{Eff, ◌>>=◌, ◌>>◌, pure, lift}
use components_contrib.Base.Signed.{ℤ, pos, negsuc, is_positive, to_int32, Duration}
use components_contrib.State.Requests.{
  Bytes, Properties, Metadata, GetRequest, DeleteRequest, Value, bytes, other, SetRequest,
  GetResponse, last_write,
}
use components_contrib.State.Options.{check_set_request_options, check_delete_request_options}
use components_contrib.State.Retry.{set_with_retries, delete_with_retries}

pub record RawProperties : Type 0 where
  pub servers : String
  pub session_timeout : String
  pub max_buffer_size : ℤ
  pub max_conn_buffer_size : ℤ
  pub key_prefix_path : String

pub record Config : Type 0 where
  pub servers : List String
  pub session_timeout : Duration
  pub max_buffer_size : ℤ
  pub max_conn_buffer_size : ℤ
  pub key_prefix_path : String

abbrev pub default_buffer_size : ℤ
default_buffer_size = pos 1048576

abbrev pub any_version : ℤ
any_version = negsuc 0

-- `properties.parse`
pub parse : (String → Result Duration) → RawProperties → Result Config
parse parse_duration props =
    let given = λ (x : ℤ). if is_positive x then x else default_buffer_size in
    if props.servers == ""
    then err (created "servers are required")
    else elim (parse_duration props.session_timeout) [
      | ok session_timeout ↦ ok (record {
        servers = split b',' props.servers;
        session_timeout = session_timeout;
        max_buffer_size = given props.max_buffer_size;
        max_conn_buffer_size = given props.max_conn_buffer_size;
        key_prefix_path = props.key_prefix_path;
      })
      | err e ↦ err (created "sessionTimeout is invalid")
      | panic p ↦ panic p
    ]

-- `decode` is the Marshal of the metadata with the Unmarshal into `properties`.
pub new_config :
    (Properties → Result RawProperties) → (String → Result Duration) → Properties → Result Config
unfolding parse
new_config decode parse_duration metadata = then_result (decode metadata) (parse parse_duration)

-- An error of the connection: `zk.ErrNoNode`, or another one.
pub data Failure : Type 0 where
  no_node : Failure
  failure : Error → Failure

abbrev pub error_of : Failure → Error
error_of no_node = external "zk: node does not exist"
error_of (failure e) = e

-- What a call of the connection gives.
pub data Outcome (A : Type 0) : Type 0 where
  done : A → Outcome A
  refused : Failure → Outcome A

abbrev pub outcome : {A : Type 0} → Outcome A → Result A
outcome (done a) = ok a
outcome (refused f) = err (error_of f)

-- `zk.ACL`
pub record Acl : Type 0 where
  pub perms : ℤ
  pub scheme : String
  pub id : String

-- `zk.SetDataRequest`, `zk.CreateRequest` and `zk.DeleteRequest`.
pub record SetDataRequest : Type 0 where
  pub path : String
  pub content : Bytes
  pub version : ℤ

pub record CreateRequest : Type 0 where
  pub path : String
  pub content : Bytes
  pub acl : List Acl
  pub flags : ℤ

pub record RemovalRequest : Type 0 where
  pub path : String
  pub version : ℤ

pub data Op : Type 0 where
  set_data_op : SetDataRequest → Op
  create_op : CreateRequest → Op
  removal_op : RemovalRequest → Op

-- The interface Conn; a node is its content with its version. Create takes the flags and the ACL of the
-- node; Multi gives its answers and an error side by side.
pub record Conn (W : Type 0) : Type 0 where
  pub create : String → Bytes → ℤ → List Acl → W → Outcome (Unit {0}) × W
  pub get : String → W → Outcome (Bytes × ℤ) × W
  pub set : String → Bytes → ℤ → W → Outcome (Unit {0}) × W
  pub remove : String → ℤ → W → Outcome (Unit {0}) × W
  pub multi : List Op → W → (List (Option Failure) × Option Error) × W

-- `res, err := s.conn.Multi(ops...)`, and the return of the error if there is one: the answers beside it
-- are not looked at.
pub multi_answers : {W : Type 0} → Conn W → List Op → Eff W (List (Option Failure))
multi_answers conn ops w =
    let ((answers, e), w') = conn.multi ops w in (elim e [ none ↦ ok answers | some x ↦ err x ], w')

-- `prefixedKey`, where a store that has not been initialised has no config.
pub prefixed_key : Option Config → String → String
prefixed_key none key = key
prefixed_key (some c) key = join c.key_prefix_path key

-- `parseETag`
pub parse_etag : String → ℤ
parse_etag etag =
    if etag != ""
    then (elim (atoi etag) [ some version ↦ to_int32 version | none ↦ any_version ])
    else any_version

pub new_create_request : SetDataRequest → CreateRequest
new_create_request req = record { path = req.path; content = req.content; acl = []; flags = pos 0 }

pub new_delete_request : Option Config → DeleteRequest → Result RemovalRequest
unfolding prefixed_key parse_etag
new_delete_request config req = then_result (check_delete_request_options req) λ _. ok (record {
  path = prefixed_key config req.key;
  version = if req.options.concurrency == last_write then any_version else parse_etag req.etag;
})

-- `marshalData`
pub marshal_data : {V : Type 0} → (Value V → Result Bytes) → Value V → Result Bytes
marshal_data marshal (bytes buf) = ok buf
marshal_data marshal (other v) = marshal (other v)

pub new_set_data_request :
    {V : Type 0} → (Value V → Result Bytes) → Option Config → SetRequest V → Result SetDataRequest
unfolding prefixed_key parse_etag marshal_data
new_set_data_request marshal config req = then_result (check_set_request_options req) λ _.
    then_result (marshal_data marshal req.value) λ content. ok (record {
      path = prefixed_key config req.key;
      content = content;
      version = if req.options.concurrency == last_write then any_version else parse_etag req.etag;
    })

-- `err = multierror.Append(err, e)`
abbrev pub append_error : Option Error → Error → Error
append_error none e = joined e
append_error (some so_far) e = appended so_far e

abbrev pub answer_of : Option Error → Result (Unit {0})
answer_of none = ok tt
answer_of (some e) = err e

-- The loop of BulkDelete over the answers of one Multi.
pub deletion_errors : Option Error → List (Option Failure) → Option Error
deletion_errors so_far [] = so_far
deletion_errors so_far (none ∷ rs) = deletion_errors so_far rs
deletion_errors so_far (some no_node ∷ rs) = deletion_errors so_far rs
deletion_errors so_far (some (failure e) ∷ rs) = deletion_errors (some (append_error so_far e)) rs

-- The loop of BulkSet over the answers of one Multi, with the operations that stand at their
-- places: the error, and the requests to try again.
pub sort_answers : Option Error → List Op → List (Option Failure) → Result (Option Error × List Op)
unfolding new_create_request
sort_answers so_far ops [] = ok (so_far, [])
sort_answers so_far [] (none ∷ rs) = sort_answers so_far [] rs
sort_answers so_far [] (some no_node ∷ rs) = panic index_out_of_range
sort_answers so_far [] (some (failure e) ∷ rs) = sort_answers (some (append_error so_far e)) [] rs
sort_answers so_far (o ∷ ops) (none ∷ rs) = sort_answers so_far ops rs
sort_answers so_far (set_data_op req ∷ ops) (some no_node ∷ rs) =
    then_result (sort_answers so_far ops rs)
      λ (e, retry). ok (e, create_op (new_create_request req) ∷ retry)
sort_answers so_far (create_op req ∷ ops) (some no_node ∷ rs) =
    sort_answers (some (append_error so_far (error_of no_node))) ops rs
sort_answers so_far (removal_op req ∷ ops) (some no_node ∷ rs) =
    sort_answers (some (append_error so_far (error_of no_node))) ops rs
sort_answers so_far (o ∷ ops) (some (failure e) ∷ rs) =
    sort_answers (some (append_error so_far e)) ops rs

-- What follows the sorting: an end, or another round.
abbrev pub settle :
    {W : Type 0}
    → Result (Option Error × List Op)
    → (List Op → W → Option (Result (Unit {0}) × W))
    → W
    → Option (Result (Unit {0}) × W)
settle (ok (some e, retry)) again w = some (err e, w)
settle (ok (none, [])) again w = some (ok tt, w)
settle (ok (none, o ∷ retry)) again w = again (o ∷ retry) w
settle (err e) again w = some (err e, w)
settle (panic p) again w = some (panic p, w)

abbrev pub get_answer : Outcome (Bytes × ℤ) → Result GetResponse
get_answer (done (content, version)) =
    ok (record { payload = content; etag = itoa version; metadata = [] })
get_answer (refused f) = err (error_of f)

-- The requests of a bulk operation, up to the first that cannot be made.
pub collect_ops : {R A : Type 0} → (R → Result A) → (A → Op) → List R → Result (List Op)
collect_ops make op [] = ok []
collect_ops make op (r ∷ rs) =
    then_result (make r) λ a. then_result (collect_ops make op rs) λ os. ok (op a ∷ os)

module _ {W : Type 0} (connect : List String → Duration → ℤ → ℤ → Eff W (Conn W))
    (decode : Properties → Result RawProperties) (parse_duration : String → Result Duration) where
  pub init : Metadata → Eff W (Config × Conn W)
  unfolding new_config
  init metadata = do
    c ← lift (new_config decode parse_duration metadata.properties)
    conn ← connect c.servers c.session_timeout c.max_buffer_size c.max_conn_buffer_size
    pure (c, conn)

module _ {W : Type 0} (conn : Conn W) (config : Option Config) (sleep : Duration → W → W) where
  pub get_item : GetRequest → Eff W GetResponse
  unfolding prefixed_key
  get_item req w = let (res, w') = conn.get (prefixed_key config req.key) w in (get_answer res, w')

  -- The method that Delete retries: a node that is not there is no error.
  pub remove_once : RemovalRequest → Eff W (Unit {0})
  remove_once r w = elim (conn.remove r.path r.version w).0 [
    | done _ ↦ (ok tt, (conn.remove r.path r.version w).1)
    | refused no_node ↦ (ok tt, (conn.remove r.path r.version w).1)
    | refused (failure e) ↦ (err e, (conn.remove r.path r.version w).1)
  ]

  pub delete_item : DeleteRequest → Eff W (Unit {0})
  unfolding new_delete_request remove_once
  delete_item req = do
    r ← lift (new_delete_request config req)
    delete_with_retries sleep (λ _. remove_once r) req

  pub bulk_delete : List DeleteRequest → Eff W (Unit {0})
  unfolding collect_ops new_delete_request deletion_errors multi_answers
  bulk_delete reqs = do
    ops ← lift (collect_ops (new_delete_request config) removal_op reqs)
    answers ← multi_answers conn ops
    lift (answer_of (deletion_errors none answers))

  -- The method that Set retries: a node that is not there is created.
  pub write_once : SetDataRequest → Eff W (Unit {0})
  write_once r w = elim (conn.set r.path r.content r.version w).0 [
    | done _ ↦ (ok tt, (conn.set r.path r.content r.version w).1)
    | refused no_node ↦
        (let (res, w') =
            conn.create r.path r.content (pos 0) [] (conn.set r.path r.content r.version w).1 in
          (outcome res, w'))
    | refused (failure e) ↦ (err e, (conn.set r.path r.content r.version w).1)
  ]

  -- The loop of BulkSet, for at most `fuel` calls of Multi; `none` when they do not suffice.
  pub set_rounds : ℕ → List Op → W → Option (Result (Unit {0}) × W)
  unfolding sort_answers multi_answers
  set_rounds zero ops w = none
  set_rounds (suc fuel) ops w = elim (multi_answers conn ops w).0 [
    | ok answers ↦
        settle (sort_answers none ops answers) (set_rounds fuel) (multi_answers conn ops w).1
    | err e ↦ some (err e, (multi_answers conn ops w).1)
    | panic p ↦ some (panic p, (multi_answers conn ops w).1)
  ]

  module _ {V : Type 0} (marshal : Value V → Result Bytes) where
    pub set_item : SetRequest V → Eff W (Unit {0})
    unfolding new_set_data_request write_once
    set_item req = do
      r ← lift (new_set_data_request marshal config req)
      set_with_retries sleep (λ _. write_once r) req

    pub bulk_set : ℕ → List (SetRequest V) → W → Option (Result (Unit {0}) × W)
    unfolding collect_ops new_set_data_request set_rounds
    bulk_set fuel reqs w =
        elim (collect_ops (new_set_data_request marshal config) set_data_op reqs) [
          | ok ops ↦ set_rounds fuel ops w
          | err e ↦ some (err e, w)
          | panic p ↦ some (panic p, w)
        ]
