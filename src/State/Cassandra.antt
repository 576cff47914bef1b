-- ===== src/State/Cassandra.antt =====
-- state/cassandra/cassandra.go: the Cassandra state store. The driver, the JSON codec and
-- `strconv.ParseInt(·, 0, 32)` are parameters.
pub mod Settings
pub mod Sessions
mod Tests
use components_contrib.Base.{
  ◌%◌, String, Option, none, some, List, [], ◌∷◌, ◌==◌, if◌then◌else◌, wrapped,
  failed_type_assertion, Result, ok, panic,
}
use components_contrib.Base.Effect.{Eff, ◌>>=◌, ◌>>◌, fail, lift, on_error, for_each}
use components_contrib.Base.Signed.{ℤ}
use components_contrib.State.Requests.{
  Bytes, GetRequest, DeleteRequest, Value, SetRequest, GetResponse, empty_response, strong,
  eventual, encode,
}

pub data Consistency : Type 0 where
  all one two three quorum local_quorum each_quorum local_one any : Consistency

pub record CassandraMetadata : Type 0 where
  pub hosts : List String
  pub proto_version : ℤ
  pub replication_factor : ℤ
  pub username : String
  pub password : String
  pub consistency : String
  pub table : String
  pub keyspace : String

-- What the store sets of `gocql.ClusterConfig`.
pub record ClusterConfig : Type 0 where
  pub hosts : List String
  pub authenticator : Option (String × String)
  pub proto_version : ℤ
  pub consistency : Consistency

-- A value that is bound to a `?` of a statement.
pub data Bound : Type 0 where
  text : String → Bound
  blob : Bytes → Bound

-- A session: Query of a statement with the values that are bound to it, followed by Exec or by
-- Iter().SliceMap(), whose rows are given by their column "value", which is `none` where it does not hold
-- bytes; and the end of the session.
pub record Session (W : Type 0) : Type 0 where
  pub exec : String → List Bound → Eff W (Unit {0})
  pub slice_map : String → List Bound → Eff W (List (Option Bytes))
  pub set_consistency : Consistency → W → W
  pub close : W → W

pub record Driver (W : Type 0) : Type 0 where
  pub create_session : ClusterConfig → Eff W (Session W)

-- The struct Cassandra, initialised.
pub record Cassandra (W : Type 0) : Type 0 where
  pub session : Session W
  pub cluster : ClusterConfig
  pub table : String

module _ {W : Type 0} (driver : Driver W) (c : Cassandra W) where
  pub create_session : Consistency → Eff W (Session W)
  create_session consistency = do
    session ←
        on_error (driver.create_session c.cluster)
          (λ e. fail (wrapped "error creating session: %s" [] e))
    λ w. (ok session, session.set_consistency consistency w)

  -- `defer sess.Close()`
  abbrev closing : {A : Type 0} → Session W → Eff W A → Eff W A
  closing sess body w = let (r, w') = body w in (r, sess.close w')

  -- What Get and Set do with a session: one of their own for a strong and for an eventual request,
  -- and else the one of the store.
  pub with_session :
      {A : Type 0} → String → Consistency → Consistency → (Session W → Eff W A) → Eff W A
  unfolding create_session
  with_session consistency for_strong for_eventual body =
      if consistency == strong
      then (do sess ← create_session for_strong; closing sess (body sess))
      else if consistency == eventual
      then (do sess ← create_session for_eventual; closing sess (body sess))
      else body c.session

  -- `results[0]["value"].([]byte)`
  pub get_answer : List (Option Bytes) → Result (Option GetResponse)
  get_answer [] = ok (some empty_response)
  get_answer (none ∷ rows) = panic failed_type_assertion
  get_answer (some b ∷ rows) = ok (some (record { payload = b; etag = ""; metadata = [] }))

  pub get_item : GetRequest → Eff W (Option GetResponse)
  unfolding with_session get_answer
  get_item req = with_session req.options.consistency all one λ session. do
    results ←
        session.slice_map "SELECT value FROM ? WHERE key = ?" (text c.table ∷ text req.key ∷ [])
    lift (get_answer results)

  pub delete_item : DeleteRequest → Eff W (Unit {0})
  delete_item req = c.session.exec "DELETE FROM ? WHERE key = ?" (text c.table ∷ text req.key ∷ [])

  pub bulk_delete : List DeleteRequest → Eff W (Unit {0})
  bulk_delete = for_each delete_item

  module _ {V : Type 0} (marshal : Value V → Result Bytes) where
    pub set_item : SetRequest V → Eff W (Unit {0})
    unfolding with_session
    set_item req = with_session req.options.consistency quorum any λ session.
        session.exec "INSERT INTO ? (key, value) VALUES (?, ?)"
          (text c.table ∷ text req.key ∷ blob (encode marshal req.value) ∷ [])

    pub bulk_set : List (SetRequest V) → Eff W (Unit {0})
    bulk_set = for_each set_item
