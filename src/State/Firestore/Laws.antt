-- ===== src/State/Firestore/Laws.antt =====
-- What the Firestore client documents, and that the store of state/firestore/firestore.go is a map.
use components_contrib.Base.{String, ◌≡◌, refl, ◌≢◌, Bool, true, Option, none, some, Result, ok}
use components_contrib.State.Requests.{Bytes, DeleteRequest, Value, SetRequest, encode}
use components_contrib.Base.Signed.{Duration}
use components_contrib.State.Options.{IsConcurrency, IsConsistency}
use components_contrib.State.Retry.Attempts.{IsPattern}
use components_contrib.State.Contents.{Contents, payload_of}
use components_contrib.State.Firestore.{
  Lookup, state_entity, no_such_entity, Client, Firestore, get_answer,
}

-- What the service sends for a key with this value, and with none.
abbrev pub found : Option Bytes → Lookup
found none = no_such_entity
found (some b) = state_entity b

-- A client that reaches the service, for the entities of one kind. The client takes no empty key;
-- `may_put` says which keys with which contents the service stores: the value is an indexed property,
-- whose size is limited; the deletion of an entity that is not there is no error.
pub record Documented {W : Type 0} (c : Client W) (kind : String) : Type 0 where
  pub stored : W → Contents
  pub may_put : String → Bytes → Bool
  pub get_reply : (k : String) (w : W) → k ≢ "" → c.get kind k w ≡ (found (stored w k), w)
  pub put_reply : (k b : String) (w : W) → may_put k b ≡ true → (c.put kind k b w).0 ≡ ok tt
  pub put_self :
      (k b : String) (w : W) → may_put k b ≡ true → stored (c.put kind k b w).1 k ≡ some b
  pub put_ne : (k j b : String) (w : W) → j ≢ k → stored (c.put kind k b w).1 j ≡ stored w j
  pub remove_reply : (k : String) (w : W) → k ≢ "" → (c.remove kind k w).0 ≡ ok tt
  pub remove_self : (k : String) (w : W) → k ≢ "" → stored (c.remove kind k w).1 k ≡ none
  pub remove_ne : (k j : String) (w : W) → j ≢ k → stored (c.remove kind k w).1 j ≡ stored w j

-- The sets whose options and pattern of retries the code knows.
pub record IsKnownSet {V : Type 0} (req : SetRequest V) : Type 0 where
  pub known_concurrency : IsConcurrency req.options.concurrency
  pub known_consistency : IsConsistency req.options.consistency
  pub known_pattern : IsPattern req.options.retry_policy.pattern_name

-- The sets of this kind with a key and a content that are taken.
pub record IsTaken {W V : Type 0} {c : Client W} {kind : String} (laws : Documented c kind)
    (marshal : Value V → Result Bytes) (req : SetRequest V) : Type 0 where
  pub known : IsKnownSet req
  pub small : laws.may_put req.key (encode marshal req.value) ≡ true

-- The deletions of a key that is taken, with a pattern of retries that the code knows.
pub record IsRemoval (req : DeleteRequest) : Type 0 where
  pub named : req.key ≢ ""
  pub known_pattern : IsPattern req.options.retry_policy.pattern_name

module _ {W V : Type 0} (f : Firestore W) (sleep : Duration → W → W)
    (marshal : Value V → Result Bytes) (laws : Documented f.client f.entity_kind) where
  get_answer-hit : (b : Bytes) → payload_of (get_answer (state_entity b)) ≡ some b
  unfolding get_answer
  get_answer-hit b = refl
