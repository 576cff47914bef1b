-- ===== src/State/Redis/Recreation.antt =====
-- What becomes of an ETag of state/redis/redis.go when its key is deleted and set anew.
use components_contrib.Base.{◌≡◌, refl, sym, ◌∙◌, inl, inr, arith, Result, ok}
use components_contrib.State.Requests.{Bytes, DeleteRequest, Value, SetRequest, encode}
use components_contrib.State.Redis.{Server, StateStore, delete_value, set_value}
use mathlib.Core.Path.{subst}
use components_contrib.Base.Text.Decimal.{print_nat}
use components_contrib.State.Redis.Laws.{Documented, IsConnected}
use components_contrib.State.Redis.Script.{IsAt, IsAbsent}
use components_contrib.State.Redis.Asking.{HasOptions, WaitsNot}
use components_contrib.State.Redis.Versions.{set_value_current, set_value_new}
use components_contrib.State.Redis.Deletion.{delete_value_current}

module _ {W V : Type 0} (s : Server W) (store : StateStore) (marshal : Value V → Result Bytes)
    (connected : IsConnected s) (laws : Documented s) where
  -- An ETag outlives its key. A client has read a key at version 1. If another one deletes the key at
  -- this version and sets it anew, without an ETag, the key is again at version 1; a set by the first
  -- client with the ETag that it read then succeeds and overwrites the new content, whatever its
  -- concurrency says. The clients are connected, their sets have known options and do not wait for
  -- replicas.
  pub set_value_recreated :
      (old new : SetRequest V) (gone : DeleteRequest) (d : Bytes) (w : W)
      → HasOptions old
      → WaitsNot store old
      → HasOptions new
      → WaitsNot store new
      → gone.key ≡ old.key
      → new.key ≡ old.key
      → gone.etag ≡ print_nat 1
      → new.etag ≡ ""
      → old.etag ≡ print_nat 1
      → IsAt s old.key 1 d w
      → let w1 = (delete_value s gone w).1 in
        let w2 = (set_value s store marshal new w1).1 in
        let w3 = (set_value s store marshal old w2).1 in
        ((delete_value s gone w).0 ≡ ok tt)
        × ((set_value s store marshal new w1).0 ≡ ok tt)
        × IsAt s old.key 1 (encode marshal new.value) w2
        × ((set_value s store marshal old w2).0 ≡ ok tt)
        × IsAt s old.key 2 (encode marshal old.value) w3
  set_value_recreated old new gone d w h k h' k' same same' current fresh etag at =
      let w1 = (delete_value s gone w).1 in
      let w2 = (set_value s store marshal new w1).1 in
      let (deleted, absent, others) =
        delete_value_current s connected laws gone 1 1 d w (inl current) (inl refl)
          (subst (λ key. IsAt s key 1 d w) (sym same) at) in
      let (written, first, others') =
        set_value_new s store marshal connected laws new 0 w1 h' k' (inr (fresh, refl))
          (omega arith) (inl (subst (λ key. IsAbsent s key w1) (same ∙ sym same') absent)) in
      let first' : IsAt s old.key 1 (encode marshal new.value) w2 =
        subst (λ key. IsAt s key 1 (encode marshal new.value) w2) same' first in
      let (overwritten, second, others'') =
        set_value_current s store marshal connected laws old 1 1 (encode marshal new.value) w2 h k
          (inl etag) (omega arith) (omega arith) first' (inl refl) in
      (deleted, written, first', overwritten, second)
