-- ===== src/State/Zookeeper/Interleaving.antt =====
-- Several clients of state/zookeeper/zk.go on one server: what a set that is conditional on a version
-- finds behind the attempts of others.
use components_contrib.Base.{
  ℕ, ◌+◌, ◌^◌, ◌≤◌, ◌<◌, String, ◌≡◌, refl, sym, ap, ◌∙◌, ◌≢◌, ◌⊎◌, inl, inr, Option, some, arith,
  eq_iff, ◌==◌, Bool-cases, Error, Result, ok,
}
use components_contrib.State.Requests.{Bytes, Value, SetRequest, last_write}
use components_contrib.Base.Signed.{ℤ, pos, negsuc, to_int32_of_IsInt32, Duration}
use components_contrib.Base.Text.Decimal.{itoa}
use components_contrib.State.Retry.Constant.{Fails}
use components_contrib.State.Zookeeper.{
  SetDataRequest, RemovalRequest, no_node, failure, Conn, Config, Outcome, done, refused,
  prefixed_key, parse_etag, marshal_data, write_once, remove_once, set_item,
}
use components_contrib.State.Zookeeper.Laws.{
  Differs, Matches-or-Differs, Documented, KeepsNodes, IsChecked, asked_version,
}
use components_contrib.State.Zookeeper.Versions.{parse_etag-itoa}
use components_contrib.State.Zookeeper.Writes.{set_item-Differs}
use mathlib.Core.Path.{subst}

earlier_Differs : (v u : ℕ) → v < u → Differs (pos v) u
earlier_Differs v u lt = ((λ e. cc), (λ e. omega (arith, ap number e)))
  where
    number : ℤ → ℕ
    number (pos n) = n
    number (negsuc n) = n

asked_version-itoa :
    (concurrency etag : String) (v : ℕ)
    → concurrency ≢ last_write
    → etag ≡ itoa (pos v)
    → v < 2 ^ 31
    → asked_version concurrency etag ≡ pos v
asked_version-itoa concurrency etag v nl e b =
    let version : parse_etag etag ≡ pos v =
      ap parse_etag e ∙ parse_etag-itoa (pos v) (omega arith) ∙ to_int32_of_IsInt32 (pos v) b in
    ground (arith, eq_iff concurrency last_write, nl, version)

module _ {W : Type 0} (conn : Conn W) (laws : Documented conn) (config : Option Config)
    (sleep : Duration → W → W) where
  -- A run of `n` steps, each an attempt of a set, an attempt of a deletion of another node than `p`, or
  -- anything that changes no node, such as Get or a pause.
  pub data Runs (p : String) (w : W) : ℕ → W → Type 0 where
    stay : Runs p w 0 w
    set_next :
        {n : ℕ} {x : W} (r : SetDataRequest)
        → Runs p w n x
        → Runs p w (n + 1) (write_once conn config sleep r x).1
    remove_other :
        {n : ℕ} {x : W} (r : RemovalRequest)
        → r.path ≢ p
        → Runs p w n x
        → Runs p w (n + 1) (remove_once conn config sleep r x).1
    idle_next : {n : ℕ} {x : W} (y : W) → KeepsNodes laws x y → Runs p w n x → Runs p w (n + 1) y

  -- The node has still version `v` and content `d`, or has a later version, up to `m`.
  abbrev IsUnchangedOrLater : ℕ → Bytes → ℕ → String → W → Type 0
  IsUnchangedOrLater v d m p x =
      (laws.stored x p ≡ some (d, v))
      ⊎ ((u : ℕ) × (c : Bytes) × (v < u) × (u ≤ m) × (laws.stored x p ≡ some (c, u)))

  same-IsUnchangedOrLater :
      (v : ℕ) (d : Bytes) (m l : ℕ) (p : String) (x y : W)
      → m ≤ l
      → laws.stored y p ≡ laws.stored x p
      → IsUnchangedOrLater v d m p x
      → IsUnchangedOrLater v d l p y
  same-IsUnchangedOrLater v d m l p x y le e (inl h) = inl (e ∙ h)
  same-IsUnchangedOrLater v d m l p x y le e (inr (u, c, lt, le', h)) =
      inr (u, c, lt, omega arith, e ∙ h)

  write_once_ne :
      (r : SetDataRequest) (x : W) (q : String)
      → q ≢ r.path
      → laws.stored (write_once conn config sleep r x).1 q ≡ laws.stored x q
  unfolding write_once
  write_once_ne r x q ne = by_outcome (conn.set r.path r.content r.version x).0 refl
    where
      kept : laws.stored (conn.set r.path r.content r.version x).1 q ≡ laws.stored x q
      kept = laws.stored-set_ne r.path q r.content r.version x ne

      by_outcome :
          (o : Outcome (Unit {0}))
          → (conn.set r.path r.content r.version x).0 ≡ o
          → laws.stored (write_once conn config sleep r x).1 q ≡ laws.stored x q
      by_outcome (done u) e = rw (write_once, e) kept
      by_outcome (refused no_node) e =
          let (f, c) =
            laws.create_without_acl r.path r.content (pos 0)
              (conn.set r.path r.content r.version x).1 in
          rw (write_once, e) (ap (λ o. laws.stored o.1 q) c ∙ kept)
      by_outcome (refused (failure f)) e = rw (write_once, e) kept

  remove_once_ne :
      (r : RemovalRequest) (x : W) (q : String)
      → q ≢ r.path
      → laws.stored (remove_once conn config sleep r x).1 q ≡ laws.stored x q
  unfolding remove_once
  remove_once_ne r x q ne = by_outcome (conn.remove r.path r.version x).0 refl
    where
      kept : laws.stored (conn.remove r.path r.version x).1 q ≡ laws.stored x q
      kept = laws.stored-remove_ne r.path q r.version x ne

      by_outcome :
          (o : Outcome (Unit {0}))
          → (conn.remove r.path r.version x).0 ≡ o
          → laws.stored (remove_once conn config sleep r x).1 q ≡ laws.stored x q
      by_outcome (done u) e = rw (remove_once, e) kept
      by_outcome (refused no_node) e = rw (remove_once, e) kept
      by_outcome (refused (failure f)) e = rw (remove_once, e) kept

  -- An attempt to set a node at a version counts the version on or changes nothing.
  write_once_self :
      (r : SetDataRequest) (c : Bytes) (u : ℕ) (x : W)
      → u + 1 < 2 ^ 31
      → laws.stored x r.path ≡ some (c, u)
      → (laws.stored (write_once conn config sleep r x).1 r.path ≡ some (r.content, u + 1))
        ⊎ (laws.stored (write_once conn config sleep r x).1 r.path ≡ some (c, u))
  unfolding write_once
  write_once_self r c u x b at = elim (Matches-or-Differs r.version u) [
    | inr differs ↦ refused_set (laws.set_conflict r.path r.content c r.version u x at differs)
    | inl fits ↦ elim (Bool-cases (laws.may_set x r.path r.content)) [
      | inr denied ↦ refused_set (laws.set_denied r.path r.content c r.version u x at denied)
      | inl may ↦ inl (
          rw (write_once, laws.set_reply r.path r.content c r.version u x at b may fits)
            (laws.stored-set_self r.path r.content c r.version u x at b may fits))
    ]
  ]
    where
      refused_set :
          (e : Error) × (conn.set r.path r.content r.version x ≡ (refused (failure e), x))
          → (laws.stored (write_once conn config sleep r x).1 r.path ≡ some (r.content, u + 1))
            ⊎ (laws.stored (write_once conn config sleep r x).1 r.path ≡ some (c, u))
      refused_set (e, q) =
          inr (rw (write_once, ap (λ o. o.0) q) (ap (λ o. laws.stored o.1 r.path) q ∙ at))

  set-IsUnchangedOrLater :
      (r : SetDataRequest) (v : ℕ) (d : Bytes) (m : ℕ) (p : String) (x : W)
      → m + 1 < 2 ^ 31
      → v ≤ m
      → IsUnchangedOrLater v d m p x
      → IsUnchangedOrLater v d (m + 1) p (write_once conn config sleep r x).1
  set-IsUnchangedOrLater r v d m p x b le h = elim (Bool-cases (r.path == p)) [
    | inr e ↦
        same-IsUnchangedOrLater v d m (m + 1) p x _ (omega arith)
          (write_once_ne r x p (ground (arith, eq_iff r.path p, e))) h
    | inl e ↦
        subst (λ q. IsUnchangedOrLater v d (m + 1) q (write_once conn config sleep r x).1)
          ((eq_iff r.path p).0 e)
          (at_self (subst (λ q. IsUnchangedOrLater v d m q x) (sym ((eq_iff r.path p).0 e)) h))
  ]
    where
      at_self :
          IsUnchangedOrLater v d m r.path x
          → IsUnchangedOrLater v d (m + 1) r.path (write_once conn config sleep r x).1
      at_self (inl at) = elim (write_once_self r d v x (omega arith) at) [
        | inl q ↦ inr (v + 1, r.content, omega arith, omega arith, q)
        | inr q ↦ inl q
      ]
      at_self (inr (u, c, lt, le', at)) = elim (write_once_self r c u x (omega arith) at) [
        | inl q ↦ inr (u + 1, r.content, omega arith, omega arith, q)
        | inr q ↦ inr (u, c, lt, omega arith, q)
      ]

  Runs-IsUnchangedOrLater :
      (p : String) (v : ℕ) (d : Bytes) (w : W)
      → laws.stored w p ≡ some (d, v)
      → (m : ℕ) (x : W) → v + m < 2 ^ 31
      → Runs p w m x
      → IsUnchangedOrLater v d (v + m) p x
  Runs-IsUnchangedOrLater p v d w at _ _ b stay = inl at
  Runs-IsUnchangedOrLater p v d w at _ _ b (set_next {n = m} {x = x} r run) =
      same-IsUnchangedOrLater v d (v + m + 1) (v + (m + 1)) p _ _ (omega arith) refl (
        set-IsUnchangedOrLater r v d (v + m) p x (omega arith) (omega arith)
          (Runs-IsUnchangedOrLater p v d w at m x (omega arith) run))
  Runs-IsUnchangedOrLater p v d w at _ _ b (remove_other {n = m} {x = x} r ne run) =
      same-IsUnchangedOrLater v d (v + m) (v + (m + 1)) p x _ (omega arith)
        (remove_once_ne r x p (λ e. ne (sym e)))
        (Runs-IsUnchangedOrLater p v d w at m x (omega arith) run)
  Runs-IsUnchangedOrLater p v d w at _ _ b (idle_next {n = m} {x = x} y keeps run) =
      same-IsUnchangedOrLater v d (v + m) (v + (m + 1)) p x y (omega arith) (keeps p)
        (Runs-IsUnchangedOrLater p v d w at m x (omega arith) run)

  module _ {V : Type 0} (marshal : Value V → Result Bytes)
      (sleep_keeps : (t : Duration) (w : W) (q : String)
        → laws.stored (sleep t w) q ≡ laws.stored w q) where
    -- No set is lost. A client that found a node at version v with content d sets it after any
    -- attempts of sets of any nodes, attempts of deletions of other nodes, reads and pauses of other
    -- clients, m in all, but no deletion of this node, where v + m + 1 < 2^31: if its set has options
    -- and a pattern of retries that the code knows, is not last-write, has a value that can be
    -- marshalled and the print of v for its ETag, then the node still has version v and content d, or
    -- the set ends in an error after all its attempts and no node differs, if a pause changes none.
    pub no_lost_set :
        (req : SetRequest V) (b d : Bytes) (v m : ℕ) (w w' : W)
        → v + m + 1 < 2 ^ 31
        → laws.stored w (prefixed_key config req.key) ≡ some (d, v)
        → Runs (prefixed_key config req.key) w m w'
        → IsChecked req.options.concurrency req.options.consistency
            req.options.retry_policy.pattern_name
        → req.options.concurrency ≢ last_write
        → marshal_data marshal req.value ≡ ok b
        → req.etag ≡ itoa (pos v)
        → (laws.stored w' (prefixed_key config req.key) ≡ some (d, v))
          ⊎ Fails (KeepsNodes laws w') (set_item conn config sleep marshal req w')
    no_lost_set req b d v m w w' bound at run h nl value e =
        elim (Runs-IsUnchangedOrLater (prefixed_key config req.key) v d w at m w' (omega arith)
          run) [
            | inl same ↦ inl same
            | inr (u, c, lt, le, later) ↦ inr (
                set_item-Differs conn laws config sleep marshal sleep_keeps req b c u w' h value
                  later
                  (subst (λ x. Differs x u)
                    (sym (asked_version-itoa req.options.concurrency req.etag v nl e (omega arith)))
                    (earlier_Differs v u lt)))
          ]
