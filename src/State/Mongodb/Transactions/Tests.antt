-- ===== src/State/Mongodb/Transactions/Tests.antt =====
-- The theorem about transactions of MongoDB at a concrete input, on a map in memory with a session.
use components_contrib.Base.{
  ℕ, String, ◌≡◌, refl, ap, ◌⊎◌, inl, inr, Option, none, some, List, [], ◌∷◌, ◌==◌, if◌then◌else◌,
  Bool-cases, Error, external, Panic, Result, ok, err, panic,
}
use components_contrib.State.Requests.{
  Bytes, RetryPolicy, Value, bytes, other, TransactionalRequest, upsert, delete,
}
use components_contrib.Base.Effect.{Eff, pure, for_each}
use components_contrib.Base.Signed.{pos}
use components_contrib.Base.Text.Decimal.{print_nat}
use components_contrib.State.Contents.{Contents, put, remove}
use components_contrib.State.Mongodb.{
  Collection, Context, within, in_session, Client, MongoDb, multi,
}
use components_contrib.State.Mongodb.Transactions.{applied, Transacts, multi_all_or_nothing}

-- What is committed, and what the session sees.
abbrev World : Type 0
World = Contents × Contents

abbrev written : Context → (Contents → Contents) → Eff World (Unit {0})
written in_session f (c, p) = (ok tt, (c, f p))
written (within t) f (c, p) = (ok tt, (f c, p))

abbrev read : Option Bytes → Result String
read none = err (external "mongo: no documents in result")
read (some b) = ok b

-- A deletion of the key "locked" fails.
abbrev collection : Collection World
collection = record {
  update_one = λ ctx k b. written ctx (put k b);
  find_one = λ ctx k w. (read (w.0 k), w);
  delete_one =
      λ ctx k w. if k == "locked" then (err (external "locked"), w) else written ctx (remove k) w;
}

abbrev finish :
    Result (Unit {0}) → Option Error × World → Result (Unit {0}) × (Option Error × World)
finish (ok u) (e, (c, p)) = (ok tt, (e, (p, p)))
finish (err x) s = (err x, s)
finish (panic x) s = (panic x, s)

abbrev client : Client World
client = record {
  collection = λ d c wc rc. collection;
  start_session = pure tt;
  with_transaction = λ body s. let r = body (s.0, (s.1.0, s.1.0)) in finish r.0 r.1;
  abort_transaction = λ w. w;
  end_session = λ w. w;
}

abbrev store : MongoDb World
store = record { client = client; collection = collection; operation_timeout = 5 }

delete_either :
    (k : String) (w : World)
    → let r = collection.delete_one in_session k w in
      ((r.0 ≡ ok tt) × (r.1.1 ≡ remove k w.1)) ⊎ ((e : Error) × (r.0 ≡ err e))
delete_either k w = elim (Bool-cases (k == "locked")) [
  | inl e ↦ rw e (inr (external "locked", refl))
  | inr e ↦ rw e (inl (refl, refl))
]

delete_committed : (k : String) (w : World) → (collection.delete_one in_session k w).1.0 ≡ w.0
delete_committed k w = elim (Bool-cases (k == "locked")) [ inl e ↦ rw e refl | inr e ↦ rw e refl ]

abbrev transacts : Transacts store
transacts = record {
  stored = λ w. w.0;
  pending = λ w. w.1;
  start_reply = λ w. refl;
  start_keeps = λ w. refl;
  end_keeps = λ w. refl;
  abort_keeps = λ w. refl;
  begin = λ w. (w.0, w.0);
  stored-begin = λ w. refl;
  pending-begin = λ w. refl;
  commit = λ w. (w.1, w.1);
  stored-commit = λ w. refl;
  runs_to_commit = λ body e w h. ap (λ r. finish r (body (e, (w.0, w.0))).1) h;
  runs_to_error = λ body e w x h. ap (λ r. finish r (body (e, (w.0, w.0))).1) h;
  runs_to_panic = λ body e w p h. ap (λ r. finish r (body (e, (w.0, w.0))).1) h;
  update_keeps = λ k b w. refl;
  update_cases = λ k b w. inl (refl, refl);
  delete_keeps = delete_committed;
  delete_cases = delete_either;
}

abbrev json : Value ℕ → Result Bytes
json (bytes b) = ok b
json (other n) = ok (print_nat n)

abbrev no_retries : RetryPolicy
no_retries = record { interval = 0; threshold = pos 0; pattern_name = "" }

abbrev put_five : String → TransactionalRequest ℕ
put_five key = upsert (record {
  key = key;
  value = other 5;
  etag = "";
  metadata = [];
  options = record { concurrency = ""; consistency = ""; retry_policy = no_retries };
})

abbrev drop : String → TransactionalRequest ℕ
drop key = delete (record {
  key = key;
  etag = "";
  options = record { concurrency = ""; consistency = ""; retry_policy = no_retries };
})

abbrev operations : List (TransactionalRequest ℕ)
operations = put_five "a" ∷ drop "locked" ∷ put_five "b" ∷ []

abbrev empty : World
empty = ((λ k. none), (λ k. none))

multi_all_or_nothing_example :
    let r = multi store json operations empty in
    ((r.0 ≡ ok tt) × (r.1.0 ≡ applied json operations empty.0))
    ⊎ ((((e : Error) × (r.0 ≡ err e)) ⊎ ((p : Panic) × (r.0 ≡ panic p))) × (r.1.0 ≡ empty.0))
multi_all_or_nothing_example = multi_all_or_nothing store json transacts operations empty

rolled_back : (multi store json operations empty).1.0 "a" ≡ none
unfolding multi for_each
rolled_back = refl
