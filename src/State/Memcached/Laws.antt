-- ===== src/State/Memcached/Laws.antt =====
-- What the Memcached client documents, and that the store of state/memcached/memcached.go is a map.
use components_contrib.Base.{String, ◌≡◌, ◌≢◌, Bool, true, Option, none, some, Result, ok}
use components_contrib.State.Requests.{Bytes, Value, SetRequest, encode}
use components_contrib.State.Retry.Attempts.{IsPattern}
use components_contrib.State.Contents.{Contents}
use components_contrib.State.Memcached.{Client, Lookup, item, cache_miss}

abbrev pub looked_up : Option Bytes → Lookup
looked_up none = cache_miss
looked_up (some b) = item b

-- A client that reaches a server which keeps what it is given. `may_name` are the keys that the client
-- takes: it refuses those that are too long or have blanks. `may_put` says which of them with which
-- contents the server stores: it limits the size of an item.
pub record Documented {W : Type 0} (c : Client W) : Type 0 where
  pub stored : W → Contents
  pub may_name : String → Bool
  pub may_put : String → Bytes → Bool
  pub get_reply : (k : String) (w : W) → may_name k ≡ true → c.get k w ≡ (looked_up (stored w k), w)
  pub set_reply :
      (k : String) (b : Bytes) (w : W)
      → may_name k ≡ true
      → may_put k b ≡ true
      → (c.set k b w).0 ≡ ok tt
  pub set_self :
      (k : String) (b : Bytes) (w : W)
      → may_name k ≡ true
      → may_put k b ≡ true
      → stored (c.set k b w).1 k ≡ some b
  pub set_ne : (k j : String) (b : Bytes) (w : W) → j ≢ k → stored (c.set k b w).1 j ≡ stored w j
  pub remove_reply :
      (k : String) (b : Bytes) (w : W)
      → may_name k ≡ true
      → stored w k ≡ some b
      → (c.remove k w).0 ≡ ok tt
  pub remove_self : (k : String) (w : W) → may_name k ≡ true → stored (c.remove k w).1 k ≡ none
  pub remove_ne : (k j : String) (w : W) → j ≢ k → stored (c.remove k w).1 j ≡ stored w j

-- The sets with a key and a content that are taken, and with a pattern of retries that the code knows.
pub record IsTaken {W V : Type 0} {c : Client W} (laws : Documented c)
    (marshal : Value V → Result Bytes) (req : SetRequest V) : Type 0 where
  pub named : laws.may_name req.key ≡ true
  pub small : laws.may_put req.key (encode marshal req.value) ≡ true
  pub known_pattern : IsPattern req.options.retry_policy.pattern_name
