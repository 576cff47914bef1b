-- ===== src/State/Etcd/Laws.antt =====
-- What the etcd client documents, and that the store of state/etcd/etcd.go is a map.
use components_contrib.Base.{
  String, ◌≡◌, refl, ap, ◌≢◌, Bool, true, Option, none, some, List, [], ◌∷◌, Result, ok,
}
use components_contrib.Base.Signed.{Duration}
use components_contrib.State.Requests.{Bytes, Value, SetRequest, empty_response, encode}
use components_contrib.State.Contents.Replay.{Call, Takes, calls, replay, calls-replay}
use components_contrib.State.Contents.{Contents, eq_put, eq_remove, payload_of, Implements}
use components_contrib.State.Etcd.{
  Client, Etcd, KeyValue, RangeResponse, get_answer, get_item, delete_item, set_item, bulk_set,
}

-- What the server sends for a key with this value, and with none.
abbrev pub sent : Option KeyValue → RangeResponse
sent none = record { count = 0; kvs = [] }
sent (some kv) = record { count = 1; kvs = kv ∷ [] }

abbrev pub value_in : Option KeyValue → Option Bytes
value_in none = none
value_in (some kv) = some kv.value

-- A client whose calls reach the server within `time`. The client takes no empty key; `may_put`
-- says which keys with which contents the server stores: it limits the size of a request.
pub record Documented {W : Type 0} (c : Client W) (time : Duration) : Type 0 where
  pub stored : W → String → Option KeyValue
  pub may_put : String → Bytes → Bool
  pub get_reply : (k : String) (w : W) → k ≢ "" → c.get time k w ≡ (ok (sent (stored w k)), w)
  pub put_reply :
      (k : String) (b : Bytes) (w : W) → may_put k b ≡ true → (c.put time k b w).0 ≡ ok tt
  pub put_self :
      (k : String) (b : Bytes) (w : W)
      → may_put k b ≡ true
      → value_in (stored (c.put time k b w).1 k) ≡ some b
  pub put_ne :
      (k j : String) (b : Bytes) (w : W) → j ≢ k → stored (c.put time k b w).1 j ≡ stored w j
  pub remove_reply : (k : String) (w : W) → k ≢ "" → (c.remove time k w).0 ≡ ok tt
  pub remove_self : (k : String) (w : W) → k ≢ "" → stored (c.remove time k w).1 k ≡ none
  pub remove_ne : (k j : String) (w : W) → j ≢ k → stored (c.remove time k w).1 j ≡ stored w j

abbrev pub kept : {W : Type 0} {c : Client W} {time : Duration} → Documented c time → W → Contents
kept laws w k = value_in (laws.stored w k)

get_answer-hit :
    (o : Option KeyValue) (b : Bytes)
    → value_in o ≡ some b
    → payload_of (get_answer (sent o)) ≡ some b
unfolding get_answer
get_answer-hit none b h = cc
get_answer-hit (some kv) b h = h

get_answer-miss :
    (o : Option KeyValue) → value_in o ≡ none → get_answer (sent o) ≡ ok (some empty_response)
unfolding get_answer
get_answer-miss none h = refl
get_answer-miss (some kv) h = cc

-- A set whose key and content the server takes.
abbrev pub IsTaken :
    {W V : Type 0} {c : Client W} {time : Duration}
    → Documented c time
    → (Value V → Result Bytes)
    → SetRequest V
    → Type 0
IsTaken laws marshal req = laws.may_put req.key (encode marshal req.value) ≡ true

module _ {W V : Type 0} (r : Etcd W) (marshal : Value V → Result Bytes)
    (laws : Documented r.client r.operation_timeout) where
  -- A store whose client reaches the server within its operation timeout is a map from keys to the
  -- bytes, or the JSON, of the values.
  pub etcd-Implements :
      Implements
        (kept laws)
        (λ req. encode marshal req.value)
        (IsTaken laws marshal)
        (λ req. req.key ≢ "")
        (λ k. k ≢ "")
        (ok (some empty_response))
        (set_item r marshal)
        (delete_item r)
        (get_item r)
  unfolding set_item delete_item get_item
  etcd-Implements = record {
    set_succeeds = λ req w h. laws.put_reply req.key _ w h;
    set_writes = λ req w h.
        eq_put _ _ req.key _ (laws.put_self req.key _ w h)
          (λ j ne. ap value_in (laws.put_ne req.key j _ w ne));
    remove_writes = λ req w b a h. (
      laws.remove_reply req.key w a,
      eq_remove _ _ req.key (ap value_in (laws.remove_self req.key w a))
          (λ j ne. ap value_in (laws.remove_ne req.key j w ne)),
    );
    get_hit =
        λ req w b a h. rw (laws.get_reply req.key w a) (get_answer-hit (laws.stored w req.key) b h);
    get_miss =
        λ req w is h. rw (laws.get_reply req.key w is) (get_answer-miss (laws.stored w req.key) h);
    get_keeps = λ req w is. rw (laws.get_reply req.key w is) refl;
  }

  -- What clients of a store whose client reaches the server within its operation timeout do one call
  -- after the other, with keys that are not empty: sets and bulk sets of what the server takes, Gets,
  -- and deletions of keys that are there, shows what it shows of a map, in which the last set of a key
  -- counts, and leaves what it leaves of the map; a key that is not there is got as empty data.
  pub etcd_calls-replay :
      (cs : List (Call V)) (w : W)
      → Takes
          (λ req. encode marshal req.value)
          (some "")
          (IsTaken laws marshal)
          (λ req. req.key ≢ "")
          (λ k. k ≢ "")
          cs
          (kept laws w)
      → let r = calls (set_item r marshal) (bulk_set r marshal) (delete_item r) (get_item r) cs w in
        let m = replay (λ req. encode marshal req.value) (some "") cs (kept laws w) in
        (r.0 ≡ m.0) × (kept laws r.1 ≡ m.1)
  unfolding bulk_set
  etcd_calls-replay cs w = calls-replay etcd-Implements (bulk_set r marshal) (λ reqs v. refl) cs w
