-- ===== src/State/Redis/Interleaving.antt =====
-- What the invariant of the keys of state/redis/redis.go gives the clients that write on a condition.
mod Tests
use components_contrib.Base.{
  ℕ, ◌+◌, ◌^◌, ◌≤◌, ◌<◌, String, ◌≡◌, refl, sym, ◌∙◌, ◌≢◌, ◌⊎◌, inl, inr, arith, eq_iff, ◌==◌,
  Bool-cases, List, All, ap, true, false, Error, Result, err,
}
use components_contrib.State.Requests.{
  Bytes, DeleteRequest, Value, SetRequest, TransactionalRequest, last_write, encode,
}
use components_contrib.State.Redis.{
  is_failure, multi, nil, bulk, Server, StateStore, set_query, delete_value, set_value,
}
use mathlib.Core.Path.{subst}
use components_contrib.Base.Text.Decimal.{print_nat, print_nat-injective}
use components_contrib.State.Redis.Laws.{Documented, Transacts, IsConnected}
use components_contrib.State.Redis.Script.{IsAt}
use components_contrib.State.Redis.Asking.{HasOptions, WaitsNot}
use components_contrib.State.Redis.Versions.{set_value_stale}
use components_contrib.State.Redis.Transactions.{Names, multi-After}
use components_contrib.State.Redis.Steps.{
  Keeps, transact, transact_other, set_attempt, delete_attempt, idle, Reach, next, Runs, stay,
  set_next, delete_other, idle_next, set_value-After, delete_value-After,
}
use components_contrib.State.Redis.Invariant.{Reach-IsWellFormed}
use components_contrib.State.Redis.Reachable.{
  KeepsKey, IsWellFormed, IsUnchangedOrLater, KeepsKey-IsUnchangedOrLater, set_query-KeepsOthers,
  set_query-IsUnchangedOrLater,
}

module _ {W V : Type 0} (s : Server W) (store : StateStore) (marshal : Value V → Result Bytes)
    (connected : IsConnected s) (laws : Documented s) (transacts : Transacts s)
    (wait_keeps : (n milliseconds : ℕ) (w : W) → Keeps s w (s.wait n milliseconds w).1) where
  Reach_counted : (n m : ℕ) (w : W) → n ≡ m → Reach s store marshal n w → Reach s store marshal m w
  Reach_counted n m w e = subst (λ i. Reach s store marshal i w) e

  Runs-Reach :
      (key : String) (n : ℕ) (w : W) (m : ℕ) (w' : W)
      → Reach s store marshal n w
      → Runs s store marshal key w m w'
      → Reach s store marshal (m + n) w'
  Runs-Reach key n w _ _ r stay = Reach_counted n (0 + n) w (omega arith) r
  Runs-Reach key n w _ _ r (set_next {n = m} {v = v} req run) =
      Reach_counted (m + n + 1) (m + 1 + n) _ (omega arith)
        (next _ (Runs-Reach key n w m v r run) (set_attempt req))
  Runs-Reach key n w _ _ r (delete_other {n = m} {v = v} req ne run) =
      Reach_counted (m + n + 1) (m + 1 + n) _ (omega arith)
        (next _ (Runs-Reach key n w m v r run) (delete_attempt req))
  Runs-Reach key n w _ _ r (transact_other {n = m} {v = v} ops others run) =
      Reach_counted (m + n + 1) (m + 1 + n) _ (omega arith)
        (next _ (Runs-Reach key n w m v r run) (transact ops))
  Runs-Reach key n w _ _ r (idle_next {n = m} {v = v} v' keeps run) =
      Reach_counted (m + n + 1) (m + 1 + n) _ (omega arith)
        (next _ (Runs-Reach key n w m v r run) (idle v' keeps))

  set_value-IsUnchangedOrLater :
      (v : ℕ) (d : Bytes) (m : ℕ) (key : String) (req : SetRequest V) (w : W)
      → m + 1 < 2 ^ 63
      → v ≤ m
      → ((k : String) → IsWellFormed s m k w)
      → IsUnchangedOrLater s v d m key w
      → IsUnchangedOrLater s v d (m + 1) key (set_value s store marshal req w).1
  set_value-IsUnchangedOrLater v d m key req w b le clean h =
      set_value-After s store marshal connected (IsUnchangedOrLater s v d (m + 1) key) req w
        (KeepsKey-IsUnchangedOrLater s v d m (m + 1) key w w (omega arith) (λ f. refl) h)
        after_script
        (λ u.
          KeepsKey-IsUnchangedOrLater s v d (m + 1) (m + 1) key u _ (omega arith)
            (wait_keeps store.replicas 1000 u key))
    where
      after_script :
          (argument : String)
          → IsUnchangedOrLater s v d
              (m + 1)
              key
              (set_query s req.key argument (encode marshal req.value) w).1
      after_script argument = elim (Bool-cases (req.key == key)) [
        | inl e ↦
            subst
              (λ k.
                IsUnchangedOrLater s v d (m + 1) key
                  (set_query s k argument (encode marshal req.value) w).1)
              (sym ((eq_iff req.key key).0 e))
              (set_query-IsUnchangedOrLater s laws v d m key argument (encode marshal req.value) w b
                le h)
        | inr e ↦
            KeepsKey-IsUnchangedOrLater s v d m (m + 1) key w _ (omega arith)
              (set_query-KeepsOthers s laws m req.key argument (encode marshal req.value) key w b
                (clean req.key) (ground (arith, eq_iff req.key key, e)))
              h
      ]

  delete_value-IsUnchangedOrLater :
      (v : ℕ) (d : Bytes) (m : ℕ) (key : String) (req : DeleteRequest) (w : W)
      → req.key ≢ key
      → IsUnchangedOrLater s v d m key w
      → IsUnchangedOrLater s v d (m + 1) key (delete_value s req w).1
  delete_value-IsUnchangedOrLater v d m key req w ne h =
      delete_value-After s store marshal connected (IsUnchangedOrLater s v d (m + 1) key) req w
        (KeepsKey-IsUnchangedOrLater s v d m (m + 1) key w w (omega arith) (λ f. refl) h)
        (KeepsKey-IsUnchangedOrLater s v d m (m + 1) key w _ (omega arith)
          (λ f. laws.hget-del_ne req.key key f w ne) h)

  multi-KeepsKey :
      (key : String) (ops : List (TransactionalRequest V)) (w : W)
      → All (Names (λ k. k ≢ key)) ops
      → KeepsKey s key w (multi s store marshal ops w).1
  multi-KeepsKey key ops w others =
      multi-After s store marshal (KeepsKey s key w) (λ k. k ≢ key)
        (λ k t v ne kept f. transacts.hget-set_ne k t key f v ne ∙ kept f)
        (λ k v ne kept f. laws.hget-del_ne k key f v ne ∙ kept f) transacts ops w others (λ f. refl)

  Runs-IsUnchangedOrLater :
      (key : String) (v : ℕ) (d : Bytes) (n : ℕ) (w : W)
      → v ≤ n
      → Reach s store marshal n w
      → IsAt s key v d w
      → (m : ℕ) (w' : W) → m + n < 2 ^ 63
      → Runs s store marshal key w m w'
      → IsUnchangedOrLater s v d (m + n) key w'
  Runs-IsUnchangedOrLater key v d n w le r h _ _ b stay = inl h
  Runs-IsUnchangedOrLater key v d n w le r h _ _ b (set_next {n = m} {v = u} req run) =
      KeepsKey-IsUnchangedOrLater s v d (m + n + 1) (m + 1 + n) key _ _ (omega arith) (λ f. refl)
        (set_value-IsUnchangedOrLater v d (m + n) key req u (omega arith) (omega arith)
          (Reach-IsWellFormed s store marshal connected laws transacts wait_keeps (m + n) u
            (omega arith) (Runs-Reach key n w m u r run))
          (Runs-IsUnchangedOrLater key v d n w le r h m u (omega arith) run))
  Runs-IsUnchangedOrLater key v d n w le r h _ _ b (delete_other {n = m} {v = u} req ne run) =
      KeepsKey-IsUnchangedOrLater s v d (m + n + 1) (m + 1 + n) key _ _ (omega arith) (λ f. refl)
        (delete_value-IsUnchangedOrLater v d (m + n) key req u ne
          (Runs-IsUnchangedOrLater key v d n w le r h m u (omega arith) run))
  Runs-IsUnchangedOrLater key v d n w le r h _ _ b (transact_other {n = m} {v = u} ops others run) =
      KeepsKey-IsUnchangedOrLater s v d (m + n) (m + 1 + n) key u _ (omega arith)
        (multi-KeepsKey key ops u others)
        (Runs-IsUnchangedOrLater key v d n w le r h m u (omega arith) run)
  Runs-IsUnchangedOrLater key v d n w le r h _ _ b (idle_next {n = m} {v = u} u' keeps run) =
      KeepsKey-IsUnchangedOrLater s v d (m + n) (m + 1 + n) key u u' (omega arith) (keeps key)
        (Runs-IsUnchangedOrLater key v d n w le r h m u (omega arith) run)

  bulk-injective : (x y : String) → bulk x ≡ bulk y → x ≡ y
  bulk-injective x y e = cc

  IsAt-bounds :
      (n : ℕ) (key : String) (v : ℕ) (d : Bytes) (w : W)
      → IsWellFormed s n key w
      → IsAt s key v d w
      → (1 ≤ v) × (v ≤ n)
  IsAt-bounds n key v d w (inl absent) h = absurd (no_bulk (sym absent.no_version ∙ h.at_version))
    where
      no_bulk : nil ≢ bulk (print_nat v)
      no_bulk e = cc
  IsAt-bounds n key v d w (inr (inl plain)) h =
      absurd (no_failure (sym (plain "version") ∙ ap is_failure h.at_version))
    where
      no_failure : true ≢ false
      no_failure e = cc
  IsAt-bounds n key v d w (inr (inr (u, c, one, le, at))) h =
      let e : u ≡ v =
        print_nat-injective u v (bulk-injective _ _ (sym at.at_version ∙ h.at_version)) in
      (omega arith, omega arith)

  -- No update is lost. A client that found a key at version v with content d, on a server that started
  -- without keys and whose WAIT changes none, and writes it after any sets, deletions of other keys,
  -- transactions that are not about this key, reads and pauses of connected clients, fewer than 2^63
  -- in all: if its set has known options, is not last-write, does not wait for replicas and has the
  -- print of v for its ETag, then the key still has version v and content d, or the set ends in an
  -- error and changes nothing.
  pub no_lost_update :
      (n m : ℕ) (w w' : W) (req : SetRequest V) (v : ℕ) (d : Bytes)
      → m + n < 2 ^ 63
      → Reach s store marshal n w
      → IsAt s req.key v d w
      → Runs s store marshal req.key w m w'
      → HasOptions req
      → WaitsNot store req
      → req.etag ≡ print_nat v
      → req.options.concurrency ≢ last_write
      → IsAt s req.key v d w' ⊎ ((e : Error) × (set_value s store marshal req w' ≡ (err e, w')))
  no_lost_update n m w w' req v d b r h run options waits e nl =
      let (one, le) =
        IsAt-bounds n req.key v d w
          (Reach-IsWellFormed s store marshal connected laws transacts wait_keeps n w (omega arith)
            r req.key)
          h in
      elim (Runs-IsUnchangedOrLater req.key v d n w le r h m w' b run) [
        | inl same ↦ inl same
        | inr (u, c, lt, le', later) ↦ inr (
          _,
          set_value_stale s store marshal connected laws req v u c w' options waits (inl e)
              (omega arith) later (omega arith) (omega arith) nl,
        )
      ]
