-- ===== src/State/Redis/Script.antt =====
-- The Lua scripts of state/redis/redis.go: which writes they make and which they refuse, by the
-- version of the key and the version that is asked for.
use components_contrib.Base.{
  ℕ, ◌+◌, ◌^◌, ◌<◌, String, ◌≡◌, refl, ap, ◌∙◌, ◌≢◌, ◌⊎◌, inl, inr, true, false, arith, eq_iff,
}
use components_contrib.State.Requests.{Bytes}
use components_contrib.Base.Text.{◌+s◌}
use components_contrib.Base.Text.Decimal.{print_nat, print_nat-ne-nil}
use components_contrib.State.Redis.{
  Reply, nil, bulk, integer, array, failure, is_failure, call, Server, may_write, set_query,
}
use components_contrib.State.Redis.Laws.{Documented}

module _ {W : Type 0} (s : Server W) where
  -- The key holds content `d` at version `v`.
  pub record IsAt (key : String) (v : ℕ) (d : Bytes) (w : W) : Type 0 where
    pub at_version : s.hget key "version" w ≡ bulk (print_nat v)
    pub at_content : s.hget key "data" w ≡ bulk d

  -- The key is not there (or is no longer a hash with fields of the store).
  pub record IsAbsent (key : String) (w : W) : Type 0 where
    pub no_version : s.hget key "version" w ≡ nil
    pub no_content : s.hget key "data" w ≡ nil

  -- The key holds no hash, as one that a transaction has set: HGET fails on it.
  abbrev pub IsPlain : String → W → Type 0
  IsPlain key w = (f : String) → is_failure (s.hget key f w) ≡ true

  -- Nothing that HGET shows of the other keys differs.
  abbrev pub KeepsOthers : String → W → W → Type 0
  KeepsOthers key w w' = (j f : String) → key ≢ j → s.hget j f w' ≡ s.hget j f w

  module _ (laws : Documented s) where
    -- HSET and HINCRBY of the script, on a key that holds a hash at version `v`.
    unfoldable pub written : (key content : String) (w : W) → W
    written key content w = (s.hincrby key "version" 1 (s.hset key "data" content w).1).1

    version_ne_data : ◌≢◌ {A = String} "version" "data"
    version_ne_data = ground (arith, eq_iff "version" "data")

    data_ne_version : ◌≢◌ {A = String} "data" "version"
    data_ne_version = ground (arith, eq_iff "data" "version")

    pub written-IsAt :
        (key content : String) (v : ℕ) (d : Bytes) (w : W)
        → v + 1 < 2 ^ 63
        → IsAt key v d w
        → IsAt key (v + 1) content (written key content w)
    unfolding written
    written-IsAt key content v d w b h =
        let w' = (s.hset key "data" content w).1 in
        let kept = laws.hget-hset_ne key "data" content key "version" w (inr data_ne_version) in
        record {
          at_version =
              laws.hget-hincrby_self key "version" v 1 w' (kept ∙ h.at_version) (omega arith);
          at_content =
              laws.hget-hincrby_ne key "version" key "data" 1 w' (inr version_ne_data)
              ∙ laws.hget-hset_self key "data" content w (ap is_failure h.at_content);
        }

    pub written-IsAt_first :
        (key content : String) (w : W) → IsAbsent key w → IsAt key 1 content (written key content w)
    unfolding written
    written-IsAt_first key content w h =
        let w' = (s.hset key "data" content w).1 in
        let kept = laws.hget-hset_ne key "data" content key "version" w (inr data_ne_version) in
        record {
          at_version = laws.hget-hincrby_missing key "version" 1 w' (kept ∙ h.no_version);
          at_content =
              laws.hget-hincrby_ne key "version" key "data" 1 w' (inr version_ne_data)
              ∙ laws.hget-hset_self key "data" content w (ap is_failure h.no_content);
        }

    pub written-KeepsOthers :
        (key content : String) (w : W) → KeepsOthers key w (written key content w)
    unfolding written
    written-KeepsOthers key content w j f ne =
        laws.hget-hincrby_ne key "version" j f 1 _ (inl ne)
        ∙ laws.hget-hset_ne key "data" content j f w (inl ne)

    call-done :
        (r : Reply × W) (rest : W → Reply × W) → is_failure r.0 ≡ false → call r rest ≡ rest r.1
    call-done (nil, w) rest h = refl
    call-done (bulk v, w) rest h = refl
    call-done (integer n, w) rest h = refl
    call-done (array vs, w) rest h = refl
    call-done (failure m, w) rest h = cc

    -- The arguments with which the script writes over version `v`.
    abbrev pub Fits : ℕ → String → Type 0
    Fits v argument = (argument ≡ print_nat v) ⊎ (argument ≡ "0")

    pub may_write-Fits :
        (v : ℕ) (argument : String)
        → Fits v argument
        → may_write (bulk (print_nat v)) argument ≡ true
    unfolding may_write
    may_write-Fits v argument h =
        ground (arith, eq_iff (print_nat v) argument, eq_iff argument "0", h)

    pub may_write-refused :
        (v : ℕ) (argument : String)
        → argument ≢ print_nat v
        → argument ≢ "0"
        → may_write (bulk (print_nat v)) argument ≡ false
    unfolding may_write
    may_write-refused v argument h k = ground (
      arith,
      eq_iff (print_nat v) argument,
      eq_iff argument "0",
      eq_iff (print_nat v) "",
      print_nat-ne-nil v,
    )

    pub set_query-Fits :
        (key argument content : String) (v : ℕ) (d : Bytes) (w : W)
        → v + 1 < 2 ^ 63
        → IsAt key v d w
        → Fits v argument
        → set_query s key argument content w ≡ (integer (v + 1), written key content w)
    unfolding set_query written
    set_query-Fits key argument content v d w b h fits =
        rw (h.at_version, may_write-Fits v argument fits)
          (call-done (s.hset key "data" content w) _
              (laws.hset_reply key "data" content w (ap is_failure h.at_content))
            ∙ ap (λ r. (r, written key content w))
                (laws.hincrby_reply key "version" v 1 _
                  (laws.hget-hset_ne key "data" content key "version" w (inr data_ne_version)
                    ∙ h.at_version)
                  (omega arith)))

    -- HSET and HINCRBY of the script on a key that is not there.
    hset-IsAbsent :
        (key content : String) (w : W)
        → IsAbsent key w
        → call (s.hset key "data" content w) (s.hincrby key "version" 1)
          ≡ (integer 1, written key content w)
    unfolding written
    hset-IsAbsent key content w h =
        call-done (s.hset key "data" content w) _
          (laws.hset_reply key "data" content w (ap is_failure h.no_content))
        ∙ ap (λ r. (r, written key content w))
            (laws.hincrby_missing key "version" 1 _ (
              laws.hget-hset_ne key "data" content key "version" w (inr data_ne_version)
              ∙ h.no_version))

    pub set_query-IsAbsent :
        (key argument content : String) (w : W)
        → IsAbsent key w
        → set_query s key argument content w ≡ (integer 1, written key content w)
    unfolding set_query may_write
    set_query-IsAbsent key argument content w h = rw h.no_version (hset-IsAbsent key content w h)

    pub del-IsAbsent : (key : String) (w : W) → IsAbsent key (s.del key w).1
    del-IsAbsent key w = record {
      no_version = laws.hget-del_self key "version" w;
      no_content = laws.hget-del_self key "data" w;
    }

    may_write-failure :
        (r : Reply) (argument : String) → is_failure r ≡ true → may_write r argument ≡ true
    unfolding may_write
    may_write-failure nil argument h = refl
    may_write-failure (failure m) argument h = refl
    may_write-failure (array vs) argument h = refl
    may_write-failure (bulk v) argument h = cc
    may_write-failure (integer n) argument h = cc

    -- A key that holds no hash is deleted first.
    pub set_query-IsPlain :
        (key argument content : String) (w : W)
        → IsPlain key w
        → set_query s key argument content w ≡ (integer 1, written key content (s.del key w).1)
    unfolding set_query
    set_query-IsPlain key argument content w h =
        rw (h "version", may_write-failure (s.hget key "version" w) argument (h "version"))
          (call-done (s.del key w) _ (laws.del_reply key w)
            ∙ hset-IsAbsent key content (s.del key w).1 (del-IsAbsent key w))

    pub set_query-refused :
        (key argument content : String) (v : ℕ) (d : Bytes) (w : W)
        → IsAt key v d w
        → argument ≢ print_nat v
        → argument ≢ "0"
        → set_query s key argument content w ≡ (failure ("failed to set key " +s key), w)
    unfolding set_query
    set_query-refused key argument content v d w h ne nz =
        rw (h.at_version, may_write-refused v argument ne nz)
