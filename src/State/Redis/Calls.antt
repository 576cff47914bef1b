-- ===== src/State/Redis/Calls.antt =====
-- Set and Delete of state/redis/redis.go as they are called, with the retries of state/retry.go around
-- the scripts.
use components_contrib.Base.{
  ℕ, ◌+◌, ◌^◌, ◌<◌, ◌≡◌, refl, sym, ◌∙◌, ◌≢◌, ◌⊎◌, inl, inr, ◌||◌, arith, eq_iff, nat_eq, ◌==◌,
  Bool-cases, Result, ok,
}
use components_contrib.State.Redis.{
  Server, StateStore, delete_value, delete_item, set_value, set_item,
}
use components_contrib.State.Requests.{Bytes, DeleteRequest, Value, SetRequest, last_write, encode}
use components_contrib.Base.Signed.{Duration}
use components_contrib.State.Options.{
  IsConcurrency, IsConsistency, check_delete_request_options_passes,
}
use components_contrib.State.Retry.{set_failed, set_with_retries, delete_with_retries}
use components_contrib.State.Retry.Attempts.{IsPattern}
use components_contrib.State.Retry.Constant.{Fails, with_retries-done, with_retries-Fails}
use components_contrib.State.Redis.Laws.{Documented, IsConnected}
use components_contrib.State.Redis.Script.{IsAt, IsAbsent, IsPlain, KeepsOthers}
use components_contrib.State.Redis.Asking.{Asks, HasOptions, WaitsNot, Takes}
use components_contrib.State.Redis.Versions.{set_value_current, set_value_stale, set_value_new}
use components_contrib.State.Redis.Deletion.{DeleteAsks, delete_value_current, delete_value_stale}
use components_contrib.State.Redis.Steps.{Keeps}
use components_contrib.State.Redis.Reachable.{KeepsKey-IsAt}
use mathlib.Core.Path.{subst}

-- A set that the checks of its options and its retries let through, and that does not wait for
-- replicas.
pub record IsPlainSet {V : Type 0} (store : StateStore) (req : SetRequest V) : Type 0 where
  pub options : HasOptions req
  pub waits_not : WaitsNot store req
  pub known_pattern : IsPattern req.options.retry_policy.pattern_name

-- The same of a deletion.
pub record HasDeleteOptions (req : DeleteRequest) : Type 0 where
  pub known_concurrency : IsConcurrency req.options.concurrency
  pub known_consistency : IsConsistency req.options.consistency
  pub known_pattern : IsPattern req.options.retry_policy.pattern_name

-- Whether a request for version `u` is refused at version `v`.
abbrev pub IsStale : {V : Type 0} → SetRequest V → ℕ → ℕ → Type 0
IsStale req u v = (u ≢ v) × (u ≢ 0) × (req.options.concurrency ≢ last_write)

Takes-or-IsStale : {V : Type 0} (req : SetRequest V) (u v : ℕ) → Takes req u v ⊎ IsStale req u v
Takes-or-IsStale req u v = elim (Bool-cases (req.options.concurrency == last_write)) [
  | inl e ↦ inl (inr (inr ((eq_iff req.options.concurrency last_write).0 e)))
  | inr e ↦ elim (Bool-cases (nat_eq u v || nat_eq u 0)) [
    | inl q ↦ inl (ground (arith, q))
    | inr q ↦ inr (ground (arith, q, e, eq_iff req.options.concurrency last_write))
  ]
]

module _ {W V : Type 0} (s : Server W) (store : StateStore) (marshal : Value V → Result Bytes)
    (connected : IsConnected s) (laws : Documented s)
    (sleep_keeps : (d : Duration) (w : W) → Keeps s w (s.sleep d w)) where
  set_item-done :
      (req : SetRequest V) (w : W)
      → IsPattern req.options.retry_policy.pattern_name
      → (set_value s store marshal req w).0 ≡ ok tt
      → set_item s store marshal req w ≡ set_value s store marshal req w
  unfolding set_item set_with_retries
  set_item-done req w p h =
      with_retries-done s.sleep (set_value s store marshal req) set_failed req.options.retry_policy
        w p h

  set_item-refused :
      (req : SetRequest V) (u v : ℕ) (d : Bytes) (w : W)
      → IsPlainSet store req
      → Asks req u
      → u < 2 ^ 63
      → IsAt s req.key v d w
      → IsStale req u v
      → Fails (Keeps s w) (set_item s store marshal req w)
  unfolding set_item set_with_retries
  set_item-refused req u v d w h e b at (ne, nz, nl) =
      with_retries-Fails s.sleep (set_value s store marshal req) (Keeps s w) fails
        (λ t x k j f. sleep_keeps t x j f ∙ k j f) set_failed req.options.retry_policy w
        h.known_pattern (λ j f. refl)
    where
      fails : (x : W) → Keeps s w x → Fails (Keeps s w) (set_value s store marshal req x)
      fails x k =
          rw
            (set_value_stale s store marshal connected laws req u v d x h.options h.waits_not e b
              (KeepsKey-IsAt s req.key v d w x (k req.key) at) ne nz nl)
            ((_, refl), k)

  -- Set by version. A connected client sets a key at version v, with known options and a known pattern of
  -- retries and without waiting for replicas; the ETag prints u, or is empty for u = 0. If u is v or 0,
  -- or the set is last-write, it succeeds, and the key is at version v + 1 with the new content and no
  -- other key has changed. If none of these holds, it ends in an error after all its attempts, and
  -- nothing has changed, if a pause changes nothing.
  pub set_item_by_version :
      (req : SetRequest V) (u v : ℕ) (d : Bytes) (w : W)
      → IsPlainSet store req
      → Asks req u
      → u < 2 ^ 63
      → v + 1 < 2 ^ 63
      → IsAt s req.key v d w
      → (Takes req u v
          × (((set_item s store marshal req w).0 ≡ ok tt)
              × IsAt s req.key (v + 1) (encode marshal req.value) (set_item s store marshal req w).1
              × KeepsOthers s req.key w (set_item s store marshal req w).1))
        ⊎ (IsStale req u v × Fails (Keeps s w) (set_item s store marshal req w))
  set_item_by_version req u v d w h e b b' at = elim (Takes-or-IsStale req u v) [
    | inr refused ↦ inr (refused, set_item-refused req u v d w h e b at refused)
    | inl takes ↦
        let done =
          set_value_current s store marshal connected laws req u v d w h.options h.waits_not e b b'
            at takes in
        inl (takes, rw (set_item-done req w h.known_pattern done.0) done)
  ]

  -- A set, as in `set_item_by_version`, of a key that is not there or holds no hash succeeds whatever
  -- version its ETag prints: the key is then at version 1 with the content, and no other key changes.
  pub set_item_new :
      (req : SetRequest V) (u : ℕ) (w : W)
      → IsPlainSet store req
      → Asks req u
      → u < 2 ^ 63
      → IsAbsent s req.key w ⊎ IsPlain s req.key w
      → ((set_item s store marshal req w).0 ≡ ok tt)
        × IsAt s req.key 1 (encode marshal req.value) (set_item s store marshal req w).1
        × KeepsOthers s req.key w (set_item s store marshal req w).1
  set_item_new req u w h e b new =
      let done =
        set_value_new s store marshal connected laws req u w h.options h.waits_not e b new in
      rw (set_item-done req w h.known_pattern done.0) done

  delete_item-checked :
      (req : DeleteRequest) (w : W)
      → HasDeleteOptions req
      → delete_item s req w ≡ delete_with_retries s.sleep (delete_value s) req w
  unfolding delete_item
  delete_item-checked req w h =
      rw (check_delete_request_options_passes req h.known_concurrency h.known_consistency) refl

  delete_item-done :
      (req : DeleteRequest) (w : W)
      → HasDeleteOptions req
      → (delete_value s req w).0 ≡ ok tt
      → delete_item s req w ≡ delete_value s req w
  unfolding delete_with_retries
  delete_item-done req w h done =
      delete_item-checked req w h
      ∙ with_retries-done s.sleep (delete_value s req) set_failed req.options.retry_policy w
          h.known_pattern done

  delete_item-refused :
      (req : DeleteRequest) (u v : ℕ) (d : Bytes) (w : W)
      → HasDeleteOptions req
      → DeleteAsks req u
      → u ≢ v
      → u ≢ 0
      → IsAt s req.key v d w
      → Fails (Keeps s w) (delete_item s req w)
  unfolding delete_with_retries
  delete_item-refused req u v d w h e ne nz at =
      subst (Fails (Keeps s w)) (sym (delete_item-checked req w h)) (
        with_retries-Fails s.sleep (delete_value s req) (Keeps s w) fails
          (λ t x k j f. sleep_keeps t x j f ∙ k j f) set_failed req.options.retry_policy w
          h.known_pattern (λ j f. refl))
    where
      fails : (x : W) → Keeps s w x → Fails (Keeps s w) (delete_value s req x)
      fails x k =
          rw
            (delete_value_stale s connected laws req u v d x e ne nz
              (KeepsKey-IsAt s req.key v d w x (k req.key) at))
            ((_, refl), k)

  -- Delete by version. A connected client deletes a key at version v, with known options and a known
  -- pattern of retries; the ETag prints u, or is empty for u = 0. If u is v or 0, the deletion succeeds,
  -- the key is gone and no other key has changed; otherwise it ends in an error, also under last-write,
  -- and nothing has changed, if a pause changes nothing.
  pub delete_item_by_version :
      (req : DeleteRequest) (u v : ℕ) (d : Bytes) (w : W)
      → HasDeleteOptions req
      → DeleteAsks req u
      → IsAt s req.key v d w
      → (((u ≡ v) ⊎ (u ≡ 0))
          × (((delete_item s req w).0 ≡ ok tt)
              × IsAbsent s req.key (delete_item s req w).1
              × KeepsOthers s req.key w (delete_item s req w).1))
        ⊎ ((u ≢ v) × (u ≢ 0) × Fails (Keeps s w) (delete_item s req w))
  delete_item_by_version req u v d w h e at = elim (Bool-cases (nat_eq u v || nat_eq u 0)) [
    | inl q ↦
        let fits : (u ≡ v) ⊎ (u ≡ 0) = ground (arith, q) in
        let done = delete_value_current s connected laws req u v d w e fits at in
        inl (fits, rw (delete_item-done req w h done.0) done)
    | inr q ↦
        let ne : u ≢ v = ground (arith, q) in
        let nz : u ≢ 0 = ground (arith, q) in
        inr (ne, nz, delete_item-refused req u v d w h e ne nz at)
  ]
