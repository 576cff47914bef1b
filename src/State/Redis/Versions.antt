-- ===== src/State/Redis/Versions.antt =====
-- The versions of a key, which its ETags name: which writes and deletions of state/redis/redis.go
-- are done and which are refused.
use components_contrib.Base.{
  ℕ, ◌+◌, ◌^◌, ◌<◌, ◌≡◌, refl, ap, ◌∙◌, ◌≢◌, ◌⊎◌, inr, inl, [], ◌∷◌, arith, wrapped, external,
  Result, ok, err,
}
use components_contrib.State.Requests.{Bytes, Value, SetRequest, last_write, encode}
use components_contrib.Base.Text.{◌+s◌}
use components_contrib.Base.Text.Decimal.{print_nat}
use components_contrib.State.Redis.{Server, StateStore, set_answer, set_value}
use components_contrib.State.Redis.Laws.{Documented, IsConnected}
use components_contrib.State.Redis.Script.{
  IsAt, IsAbsent, KeepsOthers, written-IsAt, written-IsAt_first, written-KeepsOthers, del-IsAbsent,
  IsPlain, set_query-IsPlain, set_query-IsAbsent, set_query-refused,
}
use components_contrib.State.Redis.Asking.{
  HasOptions, WaitsNot, Takes, asked, asked-refused, Asks, set_value-script, set_value-Takes,
}

module _ {W V : Type 0} (s : Server W) (store : StateStore) (marshal : Value V → Result Bytes)
    (connected : IsConnected s) (laws : Documented s) where
  -- A set by a client that is connected, with known options, which does not wait for replicas, on a
  -- key at version v, and whose ETag prints a version u, or is empty for 0: if u is v, or 0, or the
  -- set is last-write, it succeeds, the key is then at version v + 1 with the request's content, and
  -- no other key changes.
  pub set_value_current :
      (req : SetRequest V) (u v : ℕ) (d : Bytes) (w : W)
      → HasOptions req
      → WaitsNot store req
      → Asks req u
      → u < 2 ^ 63
      → v + 1 < 2 ^ 63
      → IsAt s req.key v d w
      → Takes req u v
      → ((set_value s store marshal req w).0 ≡ ok tt)
        × IsAt s req.key (v + 1) (encode marshal req.value) (set_value s store marshal req w).1
        × KeepsOthers s req.key w (set_value s store marshal req w).1
  set_value_current req u v d w h waits e b b' at fits =
      rw (set_value-Takes s store marshal connected laws req u v d w h waits e b b' at fits) (
        refl,
        written-IsAt s laws req.key (encode marshal req.value) v d w b' at,
        written-KeepsOthers s laws req.key (encode marshal req.value) w,
      )

  -- A set by a client that is connected, with known options, which does not wait for replicas, on a
  -- key at version v, whose ETag is the print of a version u that is neither v nor 0, and which is
  -- not last-write, ends in an error and changes nothing.
  pub set_value_stale :
      (req : SetRequest V) (u v : ℕ) (d : Bytes) (w : W)
      → HasOptions req
      → WaitsNot store req
      → Asks req u
      → u < 2 ^ 63
      → IsAt s req.key v d w
      → u ≢ v
      → u ≢ 0
      → req.options.concurrency ≢ last_write
      → set_value s store marshal req w ≡ (
        err (
            wrapped "failed to set key %s: %s"
              (req.key ∷ [])
              (external ("failed to set key " +s req.key))),
        w,
      )
  unfolding set_answer
  set_value_stale req u v d w h waits e b at ne nz nl =
      set_value-script s store marshal connected req u w h waits e b
      ∙ ap (λ r. (set_answer req.key r.0, r.1))
          (set_query-refused s laws req.key (asked req u) (encode marshal req.value) v d w at
            (asked-refused req u v ne nz nl).0 (asked-refused req u v ne nz nl).1)

  -- The first write wins: of two sets of one key whose ETags both print its version v > 0, made by
  -- a connected client with known options and without waiting for replicas, the first succeeds; the
  -- second, if it is not last-write, fails and leaves what the first wrote, which is at version v + 1.
  set_value_first_write_wins :
      (first second : SetRequest V) (v : ℕ) (d : Bytes) (w : W)
      → HasOptions first
      → WaitsNot store first
      → HasOptions second
      → WaitsNot store second
      → second.key ≡ first.key
      → first.etag ≡ print_nat v
      → second.etag ≡ print_nat v
      → 0 < v
      → v + 1 < 2 ^ 63
      → second.options.concurrency ≢ last_write
      → IsAt s first.key v d w
      → let w' = (set_value s store marshal first w).1 in
        ((set_value s store marshal first w).0 ≡ ok tt)
        × ((set_value s store marshal second w').0 ≢ ok tt)
        × ((set_value s store marshal second w').1 ≡ w')
        × IsAt s first.key (v + 1) (encode marshal first.value) w'
  set_value_first_write_wins first second v d w h n h' n' k e e' p b nl at =
      let w' = (set_value s store marshal first w).1 in
      let done = set_value_current first v v d w h n (inl e) (omega arith) b at (inl refl) in
      let at' : IsAt s second.key (v + 1) (encode marshal first.value) w' = rw k done.1 in
      let refused =
        set_value_stale second v (v + 1) (encode marshal first.value) w' h' n' (inl e')
          (omega arith) at' (omega arith) (omega arith) nl in
      (done.0, rw refused (λ q. cc), rw refused, done.1)

  -- A set by a connected client, with known options, which does not wait for replicas, and whose ETag
  -- prints a version or is empty, of a key that is not there or holds no hash, succeeds: the key is then
  -- at version 1 with the request's content, and no other key changes.
  pub set_value_new :
      (req : SetRequest V) (u : ℕ) (w : W)
      → HasOptions req
      → WaitsNot store req
      → Asks req u
      → u < 2 ^ 63
      → IsAbsent s req.key w ⊎ IsPlain s req.key w
      → ((set_value s store marshal req w).0 ≡ ok tt)
        × IsAt s req.key 1 (encode marshal req.value) (set_value s store marshal req w).1
        × KeepsOthers s req.key w (set_value s store marshal req w).1
  unfolding set_answer
  set_value_new req u w h waits e b (inl absent) =
      rw
        (
          set_value-script s store marshal connected req u w h waits e b,
          set_query-IsAbsent s laws req.key (asked req u) (encode marshal req.value) w absent,
        )
        (
          refl,
          written-IsAt_first s laws req.key (encode marshal req.value) w absent,
          written-KeepsOthers s laws req.key (encode marshal req.value) w,
        )
  set_value_new req u w h waits e b (inr plain) =
      rw
        (
          set_value-script s store marshal connected req u w h waits e b,
          set_query-IsPlain s laws req.key (asked req u) (encode marshal req.value) w plain,
        )
        (
          refl,
          written-IsAt_first s laws req.key (encode marshal req.value) _
              (del-IsAbsent s laws req.key w),
          λ j f ne.
              written-KeepsOthers s laws req.key (encode marshal req.value) _ j f ne
              ∙ laws.hget-del_ne req.key j f w ne,
        )
