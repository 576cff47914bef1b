-- ===== src/State/Redis/Invariant.antt =====
-- The invariant of the keys of state/redis/redis.go, however the calls of its clients interleave.
use components_contrib.Base.{ℕ, ◌+◌, ◌^◌, ◌<◌, String, refl, inl, arith, List, Result}
use components_contrib.State.Requests.{
  Bytes, DeleteRequest, Value, SetRequest, TransactionalRequest, encode,
}
use components_contrib.State.Redis.{multi, Server, StateStore, delete_value, set_value}
use components_contrib.State.Redis.Laws.{Documented, Transacts, IsConnected}
use components_contrib.State.Redis.Transactions.{multi-After, All-Names_any}
use components_contrib.State.Redis.Steps.{
  Keeps, transact, Step, set_attempt, delete_attempt, idle, Reach, start, next, set_value-After,
  delete_value-After,
}
use components_contrib.State.Redis.Reachable.{
  plain_set-IsWellFormed, IsWellFormed, KeepsKey-IsWellFormed, set_query-IsWellFormed,
  del-IsWellFormed,
}

module _ {W V : Type 0} (s : Server W) (store : StateStore) (marshal : Value V → Result Bytes)
    (connected : IsConnected s) (laws : Documented s) (transacts : Transacts s)
    (wait_keeps : (n milliseconds : ℕ) (w : W) → Keeps s w (s.wait n milliseconds w).1) where
  set_value-IsWellFormed :
      (n : ℕ) (req : SetRequest V) (w : W)
      → n + 1 < 2 ^ 63
      → ((k : String) → IsWellFormed s n k w)
      → (k : String) → IsWellFormed s (n + 1) k (set_value s store marshal req w).1
  set_value-IsWellFormed n req w b h =
      set_value-After s store marshal connected (λ v. (k : String) → IsWellFormed s (n + 1) k v) req
        w (λ k. KeepsKey-IsWellFormed s n (n + 1) k w w (omega arith) (λ f. refl) (h k))
        (λ argument k.
          set_query-IsWellFormed s laws n req.key argument (encode marshal req.value) k w b h)
        (λ v hv k.
          KeepsKey-IsWellFormed s (n + 1) (n + 1) k v _ (omega arith)
            (wait_keeps store.replicas 1000 v k) (hv k))

  delete_value-IsWellFormed :
      (n : ℕ) (req : DeleteRequest) (w : W)
      → ((k : String) → IsWellFormed s n k w)
      → (k : String) → IsWellFormed s (n + 1) k (delete_value s req w).1
  delete_value-IsWellFormed n req w h =
      delete_value-After s store marshal connected (λ v. (k : String) → IsWellFormed s (n + 1) k v)
        req w (λ k. KeepsKey-IsWellFormed s n (n + 1) k w w (omega arith) (λ f. refl) (h k))
        (λ k.
          KeepsKey-IsWellFormed s n (n + 1) k _ _ (omega arith) (λ f. refl)
            (del-IsWellFormed s laws n req.key k w h))

  multi-IsWellFormed :
      (n : ℕ) (ops : List (TransactionalRequest V)) (w : W)
      → ((k : String) → IsWellFormed s n k w)
      → (k : String) → IsWellFormed s n k (multi s store marshal ops w).1
  multi-IsWellFormed n ops w h =
      multi-After s store marshal (λ v. (k : String) → IsWellFormed s n k v) (λ k. Unit)
        (λ key t v u hv k. plain_set-IsWellFormed s laws transacts n key t k v hv)
        (λ key v u hv k. del-IsWellFormed s laws n key k v hv) transacts ops w (All-Names_any ops) h

  Step-IsWellFormed :
      (n : ℕ) (w w' : W)
      → n + 1 < 2 ^ 63
      → ((k : String) → IsWellFormed s n k w)
      → Step s store marshal w w'
      → (k : String) → IsWellFormed s (n + 1) k w'
  Step-IsWellFormed n w _ b h (set_attempt req) k = set_value-IsWellFormed n req w b h k
  Step-IsWellFormed n w _ b h (delete_attempt req) k = delete_value-IsWellFormed n req w h k
  Step-IsWellFormed n w _ b h (transact ops) k =
      KeepsKey-IsWellFormed s n (n + 1) k _ _ (omega arith) (λ f. refl)
        (multi-IsWellFormed n ops w h k)
  Step-IsWellFormed n w _ b h (idle w' keeps) k =
      KeepsKey-IsWellFormed s n (n + 1) k w w' (omega arith) (keeps k) (h k)

  -- The invariant of the store. On a server that starts without keys and whose WAIT changes none,
  -- whatever sets, deletions, transactions, reads and pauses of connected clients follow each other, in
  -- any order and with any ETags and options, fewer than 2^63 of them: every key is either not there, or
  -- holds no hash, as a transaction leaves it, or holds a content at a version between 1 and the number
  -- of steps.
  pub Reach-IsWellFormed :
      (n : ℕ) (w : W)
      → n < 2 ^ 63
      → Reach s store marshal n w
      → (key : String) → IsWellFormed s n key w
  Reach-IsWellFormed _ _ b (start w h) key = inl (h key)
  Reach-IsWellFormed _ _ b (next {n = m} {w = v} w' r step) key =
      Step-IsWellFormed m v w' b (Reach-IsWellFormed m v (omega arith) r) step key
