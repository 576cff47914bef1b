-- ===== src/State/Zookeeper/Laws.antt =====
-- What the store of state/zookeeper/zk.go relies on of the server: nodes with versions.
use components_contrib.Base.{
  ℕ, zero, suc, ◌+◌, ◌^◌, ◌<◌, String, ◌≡◌, refl, ap, ◌≢◌, ◌⊎◌, inl, inr, Bool, true, false, Option,
  none, some, [], arith, nat_eq, ◌==◌, if◌then◌else◌, Bool-cases, Error,
}
use components_contrib.State.Requests.{Bytes, last_write}
use components_contrib.Base.Signed.{ℤ, pos, negsuc}
use components_contrib.State.Options.{IsConcurrency, IsConsistency}
use components_contrib.State.Retry.Attempts.{IsPattern}
use components_contrib.State.Zookeeper.{
  Failure, no_node, failure, Conn, done, refused, any_version, parse_etag,
}

-- Whether the server takes a version for that of a node.
abbrev pub Matches : ℤ → ℕ → Type 0
Matches x v = (x ≡ any_version) ⊎ (x ≡ pos v)

abbrev pub Differs : ℤ → ℕ → Type 0
Differs x v = (x ≢ any_version) × (x ≢ pos v)

-- What the server and its client document of the calls of a session that stays connected: a node has a
-- content and a version, which a set counts on. `may_set` says whether the session is permitted to set
-- a node, to a content that is not too large, and `may_remove` whether it is permitted to remove one,
-- which has no children; `is_path` are the paths that the client takes. An ACL that is empty is not
-- valid for a creation.
pub record Documented {W : Type 0} (c : Conn W) : Type 0 where
  pub stored : W → String → Option (Bytes × ℕ)
  pub may_set : W → String → Bytes → Bool
  pub may_remove : W → String → Bool
  pub is_path : String → Bool
  pub set_reply :
      (p b d : String) (x : ℤ) (v : ℕ) (w : W)
      → stored w p ≡ some (d, v)
      → v + 1 < 2 ^ 31
      → may_set w p b ≡ true
      → Matches x v
      → (c.set p b x w).0 ≡ done tt
  pub stored-set_self :
      (p b d : String) (x : ℤ) (v : ℕ) (w : W)
      → stored w p ≡ some (d, v)
      → v + 1 < 2 ^ 31
      → may_set w p b ≡ true
      → Matches x v
      → stored (c.set p b x w).1 p ≡ some (b, v + 1)
  pub stored-set_ne :
      (p q b : String) (x : ℤ) (w : W) → q ≢ p → stored (c.set p b x w).1 q ≡ stored w q
  pub set_conflict :
      (p b d : String) (x : ℤ) (v : ℕ) (w : W)
      → stored w p ≡ some (d, v)
      → Differs x v
      → (e : Error) × (c.set p b x w ≡ (refused (failure e), w))
  pub set_denied :
      (p b d : String) (x : ℤ) (v : ℕ) (w : W)
      → stored w p ≡ some (d, v)
      → may_set w p b ≡ false
      → (e : Error) × (c.set p b x w ≡ (refused (failure e), w))
  pub set_missing :
      (p b : String) (x : ℤ) (w : W)
      → stored w p ≡ none
      → (f : Failure) × (c.set p b x w ≡ (refused f, w))
  pub create_without_acl :
      (p b : String) (flags : ℤ) (w : W)
      → (f : Failure) × (c.create p b flags [] w ≡ (refused f, w))
  pub remove_reply :
      (p d : String) (x : ℤ) (v : ℕ) (w : W)
      → stored w p ≡ some (d, v)
      → may_remove w p ≡ true
      → Matches x v
      → (c.remove p x w).0 ≡ done tt
  pub stored-remove_self :
      (p d : String) (x : ℤ) (v : ℕ) (w : W)
      → stored w p ≡ some (d, v)
      → may_remove w p ≡ true
      → Matches x v
      → stored (c.remove p x w).1 p ≡ none
  pub stored-remove_ne :
      (p q : String) (x : ℤ) (w : W) → q ≢ p → stored (c.remove p x w).1 q ≡ stored w q
  pub remove_conflict :
      (p d : String) (x : ℤ) (v : ℕ) (w : W)
      → stored w p ≡ some (d, v)
      → Differs x v
      → (e : Error) × (c.remove p x w ≡ (refused (failure e), w))
  pub remove_missing :
      (p : String) (x : ℤ) (w : W)
      → is_path p ≡ true
      → stored w p ≡ none
      → c.remove p x w ≡ (refused no_node, w)

module _ {W : Type 0} {c : Conn W} (laws : Documented c) where
  -- No node differs.
  abbrev pub KeepsNodes : W → W → Type 0
  KeepsNodes w x = (q : String) → laws.stored x q ≡ laws.stored w q

  abbrev pub KeepsOtherNodes : String → W → W → Type 0
  KeepsOtherNodes p w x = (q : String) → q ≢ p → laws.stored x q ≡ laws.stored w q

-- Options and a pattern of retries that the code knows.
pub record IsChecked (concurrency consistency pattern_name : String) : Type 0 where
  pub known_concurrency : IsConcurrency concurrency
  pub known_consistency : IsConsistency consistency
  pub known_pattern : IsPattern pattern_name

-- The version that a request asks for.
abbrev pub asked_version : String → String → ℤ
asked_version concurrency etag = if concurrency == last_write then any_version else parse_etag etag

pub Matches-or-Differs : (x : ℤ) (v : ℕ) → Matches x v ⊎ Differs x v
Matches-or-Differs (pos n) v = elim (Bool-cases (nat_eq n v)) [
  | inl e ↦ inl (inr (ap pos (ground (arith, e))))
  | inr e ↦ inr ((λ p. cc), (λ p. differs e (ap number p)))
]
  where
    number : ℤ → ℕ
    number (pos n) = n
    number (negsuc n) = n

    differs : nat_eq n v ≡ false → n ≢ v
    differs e = ground (arith, e)
Matches-or-Differs (negsuc zero) v = inl (inl refl)
Matches-or-Differs (negsuc (suc n)) v = inr ((λ p. apart (ap number p)), (λ p. cc))
  where
    number : ℤ → ℕ
    number (pos n) = n
    number (negsuc n) = n

    apart : suc n ≢ 0
    apart p = omega arith
