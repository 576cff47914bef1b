-- ===== src/State/Cosmosdb/Tests.antt =====
-- The theorems about the Cosmos DB store at concrete inputs, on a service in memory.
use components_contrib.Base.{
  ℕ, String, ◌≡◌, refl, ◌≢◌, inl, inr, true, false, Option, none, some, List, [], ◌∷◌, arith,
  eq_iff, eq_refl, ◌==◌, if◌then◌else◌, Error, created, Result, ok, err,
}
use components_contrib.Base.Effect.{pure, fail}
use components_contrib.State.Requests.{GetRequest, Value, bytes, other, SetRequest}
use components_contrib.Base.Signed.{pos}
use components_contrib.State.Memory.{find, insert, find-insert_self}
use components_contrib.State.Cosmosdb.{
  CosmosItem, Client, StateStore, get_item, set_item, answer_of,
}
use components_contrib.State.Cosmosdb.Conflicts.{
  Documented, HasOptions, set_item_first_write_wins, items_of,
}

-- The documents, whose values are texts.
abbrev Documents : Type 0
Documents = List (String × CosmosItem String)

abbrev text_of : Value ℕ → String
text_of (bytes b) = b
text_of (other n) = ""

-- An ETag other than that of a document.
abbrev next_etag : String → String
next_etag etag = if etag == "1" then "2" else "1"

next_etag-ne : (etag : String) → next_etag etag ≢ etag
next_etag-ne etag = ground (arith, eq_iff etag "1", eq_iff "1" "2")

abbrev write_document : String → String → String → Documents → Result (Unit {0}) × Documents
write_document k v etag w = (ok tt, insert k (record { value = v; etag = etag }) w)

abbrev upsert_on :
    Option (CosmosItem String)
    → Option String
    → String
    → String
    → Documents
    → Result (Unit {0}) × Documents
upsert_on none if_match k v w = write_document k v "1" w
upsert_on (some item) none k v w = write_document k v (next_etag item.etag) w
upsert_on (some item) (some etag) k v w = elim (etag == item.etag) [
  | true ↦ write_document k v (next_etag item.etag) w
  | false ↦ (err (created "precondition failed"), w)
]

abbrev client : Client Documents ℕ String
client = record {
  query_databases = λ id. pure (record { id = id; self_link = id } ∷ []);
  query_collections = λ db id. pure (record { id = id; self_link = id } ∷ []);
  query_documents = λ coll id o w. (ok (items_of (find w id)), w);
  upsert_document = λ coll id v o w. upsert_on (find w id) o.if_match id (text_of v) w;
  delete_document = λ link o. fail (created "not found");
}

abbrev store : StateStore Documents ℕ String
store = record {
  client = client;
  db = record { id = "db"; self_link = "db" };
  collection = record { id = "coll"; self_link = "coll" };
}

store-Documented : Documented store
store-Documented = record {
  stored = find;
  json_of = text_of;
  query_reply = λ k o w e h. refl;
  upsert_done = λ k v o w item e there h. elim h [
    | inl unconditional ↦
        rw (there, unconditional) (refl, (_, find-insert_self w k _, refl, next_etag-ne item.etag))
    | inr current ↦
        rw (there, current, upsert_on, eq_refl item.etag)
          (refl, (_, find-insert_self w k _, refl, next_etag-ne item.etag))
  ];
  upsert_refused = λ k v o w item etag e there h ne.
      let differs : (etag == item.etag) ≡ false = ground (arith, eq_iff etag item.etag, ne) in
      (created "precondition failed", rw (there, h, upsert_on, differs) refl);
}

abbrev one_document : Documents
one_document = ("a", record { value = "x"; etag = "7" }) ∷ []

abbrev write_a : String → SetRequest ℕ
write_a content = record {
  key = "a";
  value = bytes content;
  etag = "7";
  metadata = [];
  options = record {
    concurrency = "last-write";
    consistency = "strong";
    retry_policy = record { interval = 0; threshold = pos 0; pattern_name = "" };
  };
}

write_a-HasOptions : (content : String) → HasOptions (write_a content)
write_a-HasOptions content = record {
  known_concurrency = inr (inr refl);
  known_consistency = inr (inl refl);
}

abbrev read_a : GetRequest
read_a = record { key = "a"; options = record { consistency = "strong" } }

read_answer :
    (get_item store ok read_a one_document).0
    ≡ ok (some (record { payload = "x"; etag = "7"; metadata = [] }))
unfolding get_item
read_answer = refl

set_item_first_write_wins_example :
    let w' = (set_item store (write_a "y") one_document).1 in
    ((set_item store (write_a "y") one_document).0 ≡ ok tt)
    × ((e : Error) × (set_item store (write_a "z") w' ≡ (err e, w')))
    × ((etag : String) × ((get_item store ok read_a w').0
          ≡ answer_of ok (record { value = "y"; etag = etag } ∷ [])))
unfolding store-Documented
set_item_first_write_wins_example =
    set_item_first_write_wins store ok store-Documented read_a
      (record { payload = "x"; etag = "7"; metadata = [] }) (write_a "y") (write_a "z") one_document
      refl read_answer (ground (arith, eq_iff "7" "")) (write_a-HasOptions "y")
      (write_a-HasOptions "z") refl refl refl refl
