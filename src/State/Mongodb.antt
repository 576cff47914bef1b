-- ===== src/State/Mongodb.antt =====
-- state/mongodb/mongodb.go: the MongoDB state store. The driver and the JSON codec are parameters.
pub mod Settings
pub mod Laws
pub mod Transactions
mod Tests
use components_contrib.Base.{
  ◌%◌, String, Option, none, some, List, [], Error, wrapped, nil_dereference, failed_type_assertion,
  Result, ok, err, panic,
}
use components_contrib.Base.Effect.{Eff, ◌>>=◌, ◌>>◌, pure, crash, on_error, for_each}
use components_contrib.Base.Signed.{ℤ, Duration}
use components_contrib.State.Requests.{
  Bytes, GetRequest, DeleteRequest, Value, SetRequest, GetResponse, TransactionalRequest, upsert,
  delete, mismatched, unknown, encode,
}

pub record MongoDbMetadata : Type 0 where
  pub host : String
  pub username : String
  pub password : String
  pub database_name : String
  pub collection_name : String
  pub write_concern : String
  pub read_concern : String
  pub operation_timeout : Duration

-- `writeconcern.WMajority()` or `writeconcern.W(w)`; the journal and the timeout are always set.
pub data WriteConcern : Type 0 where
  majority : WriteConcern
  acknowledged_by : ℤ → WriteConcern

pub data ReadConcern : Type 0 where
  local majority_read available linearizable snapshot : ReadConcern

-- The calls on a collection take the time that the context leaves, or the context of a session.
pub data Context : Type 0 where
  within : Duration → Context
  in_session : Context

pub record Collection (W : Type 0) : Type 0 where
  -- `UpdateOne` with `$set` and upsert, by key
  pub update_one : Context → String → String → Eff W (Unit {0})
  pub find_one : Context → String → Eff W String
  pub delete_one : Context → String → Eff W (Unit {0})

-- `with_transaction` runs the function as often as it has to. The variable `err` that the function
-- assigns is threaded through it.
pub record Client (W : Type 0) : Type 0 where
  pub collection : String → String → WriteConcern → ReadConcern → Collection W
  pub start_session : Eff W (Unit {0})
  pub with_transaction : Eff (Option Error × W) (Unit {0}) → Eff (Option Error × W) (Unit {0})
  pub abort_transaction : W → W
  pub end_session : W → W

-- The struct MongoDB.
pub record MongoDb (W : Type 0) : Type 0 where
  pub client : Client W
  pub collection : Collection W
  pub operation_timeout : Duration

module _ {W : Type 0} (m : MongoDb W) where
  -- With an error the source also gives an empty response; here it gives the error alone.
  pub get_item : GetRequest → Eff W (Option GetResponse)
  get_item req = do
    value ← m.collection.find_one (within m.operation_timeout) req.key
    pure (some (record { payload = value; etag = ""; metadata = [] }))

  pub delete_internal : Context → DeleteRequest → Eff W (Unit {0})
  delete_internal ctx req = m.collection.delete_one ctx req.key

  pub delete_item : DeleteRequest → Eff W (Unit {0})
  unfolding delete_internal
  delete_item = delete_internal (within m.operation_timeout)

  pub bulk_delete : List DeleteRequest → Eff W (Unit {0})
  bulk_delete = for_each delete_item

  module _ {V : Type 0} (marshal : Value V → Result Bytes) where
    pub set_internal : Context → SetRequest V → Eff W (Unit {0})
    set_internal ctx req = m.collection.update_one ctx req.key (encode marshal req.value)

    pub set_item : SetRequest V → Eff W (Unit {0})
    unfolding set_internal
    set_item = set_internal (within m.operation_timeout)

    pub bulk_set : List (SetRequest V) → Eff W (Unit {0})
    bulk_set = for_each set_item

    -- One operation of a transaction; a Request of the wrong type makes the type assertion panic.
    pub run_operation : TransactionalRequest V → Eff W (Unit {0})
    unfolding set_internal delete_internal
    run_operation (upsert req) = set_internal in_session req
    run_operation (delete req) = delete_internal in_session req
    run_operation mismatched = crash failed_type_assertion
    run_operation unknown = pure tt

    pub do_transaction : List (TransactionalRequest V) → Eff W (Unit {0})
    unfolding run_operation
    do_transaction = for_each λ o. on_error (run_operation o) (λ e w. (
      err (wrapped "error during transaction, aborting the transaction: %s" [] e),
      m.client.abort_transaction w,
    ))

    -- The function that `WithTransaction` runs: it assigns `err` and returns it.
    pub transaction_body : List (TransactionalRequest V) → Eff (Option Error × W) (Unit {0})
    unfolding do_transaction
    transaction_body operations (e, w) =
        let (res, w') = do_transaction operations w in
        (res, (elim res [ ok _ ↦ none | err e' ↦ some e' | panic p ↦ e ], w'))

    -- Without a session the deferred EndSession dereferences nil. The result is `err`, as the last run
    -- of the function left it; what `WithTransaction` itself returns is dropped.
    pub multi : List (TransactionalRequest V) → Eff W (Unit {0})
    unfolding transaction_body
    multi operations w = elim (m.client.start_session w).0 [
      | err e ↦ (panic nil_dereference, (m.client.start_session w).1)
      | panic p ↦ (panic p, (m.client.start_session w).1)
      | ok _ ↦
          (let (res, (e, w')) =
              m.client.with_transaction (transaction_body operations)
                (none, (m.client.start_session w).1) in
            (
              elim res [ panic p ↦ panic p | _ ↦ elim e [ none ↦ ok tt | some e' ↦ err e' ] ],
              m.client.end_session w',
            ))
    ]
