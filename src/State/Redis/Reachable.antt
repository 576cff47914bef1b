-- ===== src/State/Redis/Reachable.antt =====
-- What holds of the keys of state/redis/redis.go however the attempts of its clients interleave.
use components_contrib.Base.{
  ℕ, ◌+◌, ◌^◌, ◌≤◌, ◌<◌, String, ◌≡◌, ap, ◌∙◌, ◌≢◌, ◌⊎◌, inl, inr, ◌||◌, arith, eq_iff, ◌==◌,
  Bool-cases,
}
use components_contrib.State.Requests.{Bytes}
use components_contrib.State.Redis.{is_failure, Server, set_query}
use mathlib.Core.Path.{subst}
use components_contrib.Base.Text.Decimal.{print_nat}
use components_contrib.State.Redis.Laws.{Documented, Transacts}
use components_contrib.State.Redis.Script.{
  IsAt, IsAbsent, IsPlain, del-IsAbsent, set_query-IsPlain, written, written-IsAt,
  written-IsAt_first, written-KeepsOthers, set_query-Fits, set_query-IsAbsent, set_query-refused,
}

module _ {W : Type 0} (s : Server W) where
  -- The key is not there, or holds no hash, or has a content and a version from 1 to `n`.
  abbrev pub IsWellFormed : ℕ → String → W → Type 0
  IsWellFormed n key w =
      IsAbsent s key w
      ⊎ IsPlain s key w
      ⊎ ((v : ℕ) × (d : Bytes) × (1 ≤ v) × (v ≤ n) × IsAt s key v d w)

  -- The key has still version `v` and content `d`, or has a later version, up to `m`.
  abbrev pub IsUnchangedOrLater : ℕ → Bytes → ℕ → String → W → Type 0
  IsUnchangedOrLater v d m key w =
      IsAt s key v d w ⊎ ((u : ℕ) × (c : Bytes) × (v < u) × (u ≤ m) × IsAt s key u c w)

  abbrev pub KeepsKey : String → W → W → Type 0
  KeepsKey key w w' = (f : String) → s.hget key f w' ≡ s.hget key f w

  KeepsKey-IsAbsent :
      (key : String) (w w' : W) → KeepsKey key w w' → IsAbsent s key w → IsAbsent s key w'
  KeepsKey-IsAbsent key w w' k h = record {
    no_version = k "version" ∙ h.no_version;
    no_content = k "data" ∙ h.no_content;
  }

  pub KeepsKey-IsAt :
      (key : String) (v : ℕ) (d : Bytes) (w w' : W)
      → KeepsKey key w w'
      → IsAt s key v d w
      → IsAt s key v d w'
  KeepsKey-IsAt key v d w w' k h = record {
    at_version = k "version" ∙ h.at_version;
    at_content = k "data" ∙ h.at_content;
  }

  KeepsKey-IsPlain :
      (key : String) (w w' : W) → KeepsKey key w w' → IsPlain s key w → IsPlain s key w'
  KeepsKey-IsPlain key w w' k h f = ap is_failure (k f) ∙ h f

  pub KeepsKey-IsWellFormed :
      (n m : ℕ) (key : String) (w w' : W)
      → n ≤ m
      → KeepsKey key w w'
      → IsWellFormed n key w
      → IsWellFormed m key w'
  KeepsKey-IsWellFormed n m key w w' b k (inl h) = inl (KeepsKey-IsAbsent key w w' k h)
  KeepsKey-IsWellFormed n m key w w' b k (inr (inr (v, d, one, le, h))) =
      inr (inr (v, d, one, omega arith, KeepsKey-IsAt key v d w w' k h))
  KeepsKey-IsWellFormed n m key w w' b k (inr (inl h)) = inr (inl (KeepsKey-IsPlain key w w' k h))

  pub KeepsKey-IsUnchangedOrLater :
      (v : ℕ) (d : Bytes) (m l : ℕ) (key : String) (w w' : W)
      → m ≤ l
      → KeepsKey key w w'
      → IsUnchangedOrLater v d m key w
      → IsUnchangedOrLater v d l key w'
  KeepsKey-IsUnchangedOrLater v d m l key w w' b k (inl h) = inl (KeepsKey-IsAt key v d w w' k h)
  KeepsKey-IsUnchangedOrLater v d m l key w w' b k (inr (u, c, lt, le, h)) =
      inr (u, c, lt, omega arith, KeepsKey-IsAt key u c w w' k h)

  module _ (laws : Documented s) where
    -- The script of a set on a key with a version writes the next one or nothing.
    set_query-after :
        (key argument content : String) (v : ℕ) (d : Bytes) (w : W)
        → v + 1 < 2 ^ 63
        → IsAt s key v d w
        → ((set_query s key argument content w).1 ≡ written s laws key content w)
          ⊎ ((set_query s key argument content w).1 ≡ w)
    set_query-after key argument content v d w b h =
        elim (Bool-cases (argument == print_nat v || argument == "0")) [
          | inl e ↦ inl (
              ap (λ r. r.1)
                (set_query-Fits s laws key argument content v d w b h
                  (ground (arith, eq_iff argument (print_nat v), eq_iff argument "0", e))))
          | inr e ↦ inr (
              ap (λ r. r.1)
                (set_query-refused s laws key argument content v d w h
                  (ground (arith, eq_iff argument (print_nat v), e))
                  (ground (arith, eq_iff argument "0", e))))
        ]

    pub set_query-KeepsOthers :
        (n : ℕ) (key argument content j : String) (w : W)
        → n + 1 < 2 ^ 63
        → IsWellFormed n key w
        → key ≢ j
        → KeepsKey j w (set_query s key argument content w).1
    set_query-KeepsOthers n key argument content j w b (inl h) ne f =
        ap (λ r. s.hget j f r.1) (set_query-IsAbsent s laws key argument content w h)
        ∙ written-KeepsOthers s laws key content w j f ne
    set_query-KeepsOthers n key argument content j w b (inr (inl h)) ne f =
        ap (λ r. s.hget j f r.1) (set_query-IsPlain s laws key argument content w h)
        ∙ written-KeepsOthers s laws key content _ j f ne
        ∙ laws.hget-del_ne key j f w ne
    set_query-KeepsOthers n key argument content j w b (inr (inr (v, d, one, le, h))) ne f =
        elim (set_query-after key argument content v d w (omega arith) h) [
          | inl e ↦ ap (s.hget j f) e ∙ written-KeepsOthers s laws key content w j f ne
          | inr e ↦ ap (s.hget j f) e
        ]

    set_query-IsWellFormed_self :
        (n : ℕ) (key argument content : String) (w : W)
        → n + 1 < 2 ^ 63
        → IsWellFormed n key w
        → IsWellFormed (n + 1) key (set_query s key argument content w).1
    set_query-IsWellFormed_self n key argument content w b (inl h) =
        rw (set_query-IsAbsent s laws key argument content w h) (
          inr
            (inr (1, content, omega arith, omega arith, written-IsAt_first s laws key content w h)))
    set_query-IsWellFormed_self n key argument content w b (inr (inl h)) =
        rw (set_query-IsPlain s laws key argument content w h) (
          inr (
            inr (
              1,
              content,
              omega arith,
              omega arith,
              written-IsAt_first s laws key content _ (del-IsAbsent s laws key w),
            )))
    set_query-IsWellFormed_self n key argument content w b (inr (inr (v, d, one, le, h))) =
        elim (set_query-after key argument content v d w (omega arith) h) [
          | inl e ↦ rw e (
              inr (
                inr (
                  v + 1,
                  content,
                  omega arith,
                  omega arith,
                  written-IsAt s laws key content v d w (omega arith) h,
                )))
          | inr e ↦ rw e (inr (inr (v, d, one, omega arith, h)))
        ]

    pub set_query-IsWellFormed :
        (n : ℕ) (key argument content j : String) (w : W)
        → n + 1 < 2 ^ 63
        → ((k : String) → IsWellFormed n k w)
        → IsWellFormed (n + 1) j (set_query s key argument content w).1
    set_query-IsWellFormed n key argument content j w b h = elim (Bool-cases (key == j)) [
      | inl e ↦
          subst (λ k. IsWellFormed (n + 1) k (set_query s key argument content w).1)
            ((eq_iff key j).0 e) (set_query-IsWellFormed_self n key argument content w b (h key))
      | inr e ↦
          KeepsKey-IsWellFormed n (n + 1) j w _ (omega arith)
            (set_query-KeepsOthers n key argument content j w b (h key)
              (ground (arith, eq_iff key j, e)))
            (h j)
    ]

    pub del-IsWellFormed :
        (n : ℕ) (key j : String) (w : W)
        → ((k : String) → IsWellFormed n k w)
        → IsWellFormed n j (s.del key w).1
    del-IsWellFormed n key j w h = elim (Bool-cases (key == j)) [
      | inl e ↦
          subst (λ k. IsWellFormed (n) k (s.del key w).1) ((eq_iff key j).0 e)
            (inl (del-IsAbsent s laws key w))
      | inr e ↦
          KeepsKey-IsWellFormed n n j w _ (omega arith)
            (λ f. laws.hget-del_ne key j f w (ground (arith, eq_iff key j, e))) (h j)
    ]

    -- A key that a transaction sets holds no hash, another one what it held.
    pub plain_set-IsWellFormed :
        (transacts : Transacts s) (n : ℕ) (key t j : String) (w : W)
        → ((k : String) → IsWellFormed n k w)
        → IsWellFormed n j (s.plain_set key t w).1
    plain_set-IsWellFormed transacts n key t j w h = elim (Bool-cases (key == j)) [
      | inl e ↦
          subst (λ k. IsWellFormed n k (s.plain_set key t w).1) ((eq_iff key j).0 e)
            (inr (inl (λ f. transacts.hget-set_self key t f w)))
      | inr e ↦
          KeepsKey-IsWellFormed n n j w _ (omega arith)
            (λ f. transacts.hget-set_ne key t j f w (ground (arith, eq_iff key j, e))) (h j)
    ]

    -- The script of a set leaves the version or raises it.
    pub set_query-IsUnchangedOrLater :
        (v : ℕ) (d : Bytes) (m : ℕ) (key argument content : String) (w : W)
        → m + 1 < 2 ^ 63
        → v ≤ m
        → IsUnchangedOrLater v d m key w
        → IsUnchangedOrLater v d (m + 1) key (set_query s key argument content w).1
    set_query-IsUnchangedOrLater v d m key argument content w b le (inl h) =
        elim (set_query-after key argument content v d w (omega arith) h) [
          | inl e ↦ rw e (
              inr (
                v + 1,
                content,
                omega arith,
                omega arith,
                written-IsAt s laws key content v d w (omega arith) h,
              ))
          | inr e ↦ rw e (inl h)
        ]
    set_query-IsUnchangedOrLater v d m key argument content w b le (inr (u, c, lt, le', h)) =
        elim (set_query-after key argument content u c w (omega arith) h) [
          | inl e ↦ rw e (
              inr (
                u + 1,
                content,
                omega arith,
                omega arith,
                written-IsAt s laws key content u c w (omega arith) h,
              ))
          | inr e ↦ rw e (inr (u, c, lt, omega arith, h))
        ]
