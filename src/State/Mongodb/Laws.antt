-- ===== src/State/Mongodb/Laws.antt =====
-- What the MongoDB driver documents of contexts, and the time that Init of state/mongodb/mongodb.go
-- leaves to the calls of its store.
use components_contrib.Base.{String, ◌≡◌, refl, Error, Result, ok, err}
use components_contrib.Base.Effect.{Eff, Holds-ok}
use components_contrib.Base.Signed.{Duration}
use components_contrib.State.Requests.{
  Bytes, Metadata, GetRequest, DeleteRequest, Value, SetRequest,
}
use components_contrib.State.Mongodb.{
  Collection, within, Client, MongoDb, get_item, set_item, delete_item,
}
use components_contrib.State.Mongodb.Settings.{init-Holds, init}

-- A context without any time left is done: a call with it fails and does nothing.
pub record Expires {W : Type 0} (c : Collection W) : Type 0 where
  pub deadline_exceeded : Error
  pub update_expired :
      (k : String) (b : Bytes) (w : W) → c.update_one (within 0) k b w ≡ (err deadline_exceeded, w)
  pub find_expired : (k : String) (w : W) → c.find_one (within 0) k w ≡ (err deadline_exceeded, w)
  pub delete_expired :
      (k : String) (w : W) → c.delete_one (within 0) k w ≡ (err deadline_exceeded, w)

module _ {W V : Type 0} (parse_duration : String → Result Duration)
    (connect : Duration → String → Eff W (Client W)) (marshal : Value V → Result Bytes) where
  -- Behind a successful Init, whatever operationTimeout the metadata give, a set, a Get and a deletion
  -- have a context that is done already: with a driver that refuses such a context, each fails and
  -- changes nothing.
  pub init_leaves_no_time :
      (metadata : Metadata) (w w' : W) (m : MongoDb W) (laws : Expires m.collection)
      (req : SetRequest V) (got : GetRequest) (removal : DeleteRequest)
      → (init parse_duration connect metadata w).0 ≡ ok m
      → (set_item m marshal req w' ≡ (err laws.deadline_exceeded, w'))
        × (get_item m got w' ≡ (err laws.deadline_exceeded, w'))
        × (delete_item m removal w' ≡ (err laws.deadline_exceeded, w'))
  unfolding set_item get_item delete_item
  init_leaves_no_time metadata w w' m laws req got removal h =
      rw (Holds-ok _ _ m (init-Holds parse_duration connect metadata w) h) (
        laws.update_expired req.key _ w',
        rw (laws.find_expired got.key w') refl,
        laws.delete_expired removal.key w',
      )
