-- ===== src/State/Redis/RoundTrip.antt =====
-- Set and Get of state/redis/redis.go on a server that clients have used: what an unconditional set
-- writes is got, whatever calls came before.
use components_contrib.Base.{
  ℕ, ◌+◌, ◌^◌, ◌≤◌, ◌<◌, ◌≡◌, refl, inl, inr, some, [], arith, Result, ok,
}
use components_contrib.State.Requests.{Bytes, GetRequest, Value, SetRequest, encode}
use components_contrib.State.Redis.{Server, StateStore, set_item}
use components_contrib.Base.Signed.{Duration}
use components_contrib.Base.Text.Decimal.{print_nat}
use components_contrib.State.Redis.Laws.{Documented, Transacts, IsConnected}
use components_contrib.State.Redis.Script.{IsAt, KeepsOthers}
use components_contrib.State.Redis.Asking.{Asks}
use components_contrib.State.Redis.Steps.{Keeps, Reach}
use components_contrib.State.Redis.Reachable.{IsWellFormed}
use components_contrib.State.Redis.Invariant.{Reach-IsWellFormed}
use components_contrib.State.Redis.Response.{get_item, get_item_of_IsAt}
use components_contrib.State.Redis.Calls.{IsPlainSet, set_item_by_version, set_item_new}

-- A set that asks for no version: its ETag is empty or prints 0.
abbrev pub IsUnconditional : {V : Type 0} → SetRequest V → Type 0
IsUnconditional req = Asks req 0

module _ {W V : Type 0} (s : Server W) (store : StateStore) (marshal : Value V → Result Bytes)
    (connected : IsConnected s) (laws : Documented s)
    (sleep_keeps : (d : Duration) (w : W) → Keeps s w (s.sleep d w)) where
  -- What an unconditional set leaves of a well-formed key.
  pub set_item-IsWellFormed :
      (n : ℕ) (req : SetRequest V) (w : W)
      → IsPlainSet store req
      → IsUnconditional req
      → n + 1 < 2 ^ 63
      → IsWellFormed s n req.key w
      → ((set_item s store marshal req w).0 ≡ ok tt)
        × ((v : ℕ) × (1 ≤ v)
            × (v ≤ n + 1)
            × IsAt s req.key v (encode marshal req.value) (set_item s store marshal req w).1)
        × KeepsOthers s req.key w (set_item s store marshal req w).1
  set_item-IsWellFormed n req w h e b (inl absent) =
      let done =
        set_item_new s store marshal connected laws sleep_keeps req 0 w h e (omega arith)
          (inl absent) in
      (done.0, (1, omega arith, omega arith, done.1), done.2)
  set_item-IsWellFormed n req w h e b (inr (inl plain)) =
      let done =
        set_item_new s store marshal connected laws sleep_keeps req 0 w h e (omega arith)
          (inr plain) in
      (done.0, (1, omega arith, omega arith, done.1), done.2)
  set_item-IsWellFormed n req w h e b (inr (inr (v, d, one, le, at))) =
      elim (set_item_by_version s store marshal connected laws sleep_keeps req 0 v d w h e
        (omega arith) (omega arith) at) [
          | inl (takes, done) ↦ (done.0, (v + 1, omega arith, omega arith, done.1), done.2)
          | inr ((ne, nz, nl), fails) ↦ absurd (nz refl)
        ]

  module _ (transacts : Transacts s)
      (wait_keeps : (n milliseconds : ℕ) (w : W) → Keeps s w (s.wait n milliseconds w).1) where
    -- What is set is got, whatever was done before. On a server that started without keys, whose WAIT
    -- and whose pauses change none, and after any sets, deletions, transactions and reads, n < 2^63 -
    -- 1 in all: a set with known options and a known pattern of retries, which asks for no version and
    -- does not wait for replicas, succeeds, and Get of the same key then gives the content that was
    -- set, with the print of a version from 1 to n + 1 as its ETag, and changes nothing.
    pub get_item-set_item :
        (n : ℕ) (w : W) (req : SetRequest V) (got : GetRequest)
        → n + 1 < 2 ^ 63
        → Reach s store marshal n w
        → IsPlainSet store req
        → IsUnconditional req
        → got.key ≡ req.key
        → let w' = (set_item s store marshal req w).1 in
          ((set_item s store marshal req w).0 ≡ ok tt)
          × ((v : ℕ) × (1 ≤ v)
              × (v ≤ n + 1)
              × (get_item s got w' ≡ (
                ok (
                    some (record {
                      payload = encode marshal req.value;
                      etag = print_nat v;
                      metadata = [];
                    })),
                w',
              )))
    get_item-set_item n w req got b reach h e k =
        let clean =
          Reach-IsWellFormed s store marshal connected laws transacts wait_keeps n w (omega arith)
            reach req.key in
        let (done, (v, one, le, at), others) = set_item-IsWellFormed n req w h e b clean in
        (
          done,
          (
            v,
            one,
            le,
            get_item_of_IsAt s connected laws got v (encode marshal req.value) _ (rw k at),
          ),
        )
