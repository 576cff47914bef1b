-- ===== src/State/Redis/Asking.antt =====
-- What a set of state/redis/redis.go asks its script for, and what it does when it may write.
use components_contrib.Base.{
  ℕ, ◌+◌, ◌^◌, ◌<◌, String, ◌≡◌, refl, sym, ap, ◌∙◌, ◌≢◌, ◌⊎◌, inl, inr, arith, eq_iff, ◌==◌,
  if◌then◌else◌, Bool-cases, Result, ok, err, panic,
}
use components_contrib.State.Requests.{Bytes, Value, SetRequest, last_write, strong, encode}
use components_contrib.Base.Text.Decimal.{
  print_nat, itoa, atoi-print_nat, print_nat-injective, print_nat-ne-nil, itoa-pos, print_nat-zero,
}
use components_contrib.Base.Effect.{Eff, continue}
use components_contrib.Base.Signed.{pos}
use components_contrib.State.Options.{
  check_set_request_options, IsConcurrency, IsConsistency, check_set_request_options_passes,
}
use components_contrib.State.Redis.{
  Server, StateStore, set_answer, set_query, parse_etag, await_replicas, write_version, set_value,
}
use components_contrib.State.Redis.Laws.{Documented, IsConnected}
use components_contrib.State.Redis.Script.{IsAt, written, set_query-Fits}

-- The options are known ones.
pub record HasOptions {V : Type 0} (req : SetRequest V) : Type 0 where
  pub known_concurrency : IsConcurrency req.options.concurrency
  pub known_consistency : IsConsistency req.options.consistency

-- The store does not wait for replicas.
abbrev pub WaitsNot : {V : Type 0} → StateStore → SetRequest V → Type 0
WaitsNot store req = (req.options.consistency ≢ strong) ⊎ (store.replicas ≡ 0)

check_passes :
    {V : Type 0} (req : SetRequest V) → HasOptions req → check_set_request_options req ≡ ok tt
check_passes req h = check_set_request_options_passes req h.known_concurrency h.known_consistency

parse_etag-print_nat : (u : ℕ) → u < 2 ^ 63 → parse_etag (print_nat u) ≡ ok (pos u)
unfolding parse_etag
parse_etag-print_nat u h =
    ground (arith, atoi-print_nat u h, eq_iff (print_nat u) "", print_nat-ne-nil u)

-- The ETag of the request stands for version `u`; none stands for 0.
abbrev pub Asks : {V : Type 0} → SetRequest V → ℕ → Type 0
Asks req u = (req.etag ≡ print_nat u) ⊎ ((req.etag ≡ "") × (u ≡ 0))

parse_etag-Asks :
    {V : Type 0} (req : SetRequest V) (u : ℕ)
    → u < 2 ^ 63
    → Asks req u
    → parse_etag req.etag ≡ ok (pos u)
unfolding parse_etag
parse_etag-Asks req u b (inl e) = ap parse_etag e ∙ parse_etag-print_nat u b
parse_etag-Asks req u b (inr (e, z)) = ap parse_etag e ∙ ap (λ n. ok (pos n)) (sym z)

-- The version that the script is asked for.
abbrev pub asked : {V : Type 0} → SetRequest V → ℕ → String
asked req u = itoa (if req.options.concurrency == last_write then pos 0 else pos u)

continue-skip :
    {W : Type 0} (r : Result (Unit {0})) (m : Eff W (Unit {0})) (w : W)
    → m w ≡ (ok tt, w)
    → continue r (λ _. m) w ≡ (r, w)
continue-skip (ok u) m w h = h
continue-skip (err e) m w h = refl
continue-skip (panic p) m w h = refl

module _ {W V : Type 0} (s : Server W) (store : StateStore) (marshal : Value V → Result Bytes)
    (connected : IsConnected s) where
  await_replicas-skips :
      (req : SetRequest V) (w : W)
      → WaitsNot store req
      → await_replicas s store marshal req w ≡ (ok tt, w)
  unfolding await_replicas
  await_replicas-skips req w waits = ground (arith, eq_iff req.options.consistency strong, waits)

  write_version-script :
      (req : SetRequest V) (u : ℕ) (w : W)
      → write_version s store marshal req (pos u) w ≡ (
          let (res, w') = set_query s req.key (asked req u) (encode marshal req.value) w in
          (set_answer req.key res, w'))
  unfolding write_version
  write_version-script req u w = ap (λ r. (set_answer req.key r.0, r.1)) (connected _ w)

  -- A set whose options are known runs the script once, and then waits for the replicas.
  pub set_value-steps :
      (req : SetRequest V) (u : ℕ) (w : W)
      → HasOptions req
      → Asks req u
      → u < 2 ^ 63
      → set_value s store marshal req w ≡ (
          let (res, w') = set_query s req.key (asked req u) (encode marshal req.value) w in
          continue (set_answer req.key res) (λ _. await_replicas s store marshal req) w')
  unfolding set_value
  set_value-steps req u w h e b =
      rw (check_passes req h, parse_etag-Asks req u b e)
        (ap (λ r. continue r.0 (λ _. await_replicas s store marshal req) r.1)
          (write_version-script req u w))

  -- A set whose options are known and that does not wait runs the script once.
  pub set_value-script :
      (req : SetRequest V) (u : ℕ) (w : W)
      → HasOptions req
      → WaitsNot store req
      → Asks req u
      → u < 2 ^ 63
      → set_value s store marshal req w ≡ (
          let (res, w') = set_query s req.key (asked req u) (encode marshal req.value) w in
          (set_answer req.key res, w'))
  set_value-script req u w h waits e b =
      set_value-steps req u w h e b
      ∙ continue-skip _ (await_replicas s store marshal req) _ (await_replicas-skips req _ waits)

-- What makes version `u` of a request fit a key at version `v`.
abbrev pub Takes : {V : Type 0} → SetRequest V → ℕ → ℕ → Type 0
Takes req u v = (u ≡ v) ⊎ (u ≡ 0) ⊎ (req.options.concurrency ≡ last_write)

asked-eq :
    {V : Type 0} (req : SetRequest V) (u : ℕ)
    → asked req u ≡ (if req.options.concurrency == last_write then "0" else print_nat u)
asked-eq req u = elim (Bool-cases (req.options.concurrency == last_write)) [
  | inl e ↦ rw e (itoa-pos 0 ∙ print_nat-zero)
  | inr e ↦ rw e (itoa-pos u)
]

pub asked-Fits :
    {V : Type 0} (req : SetRequest V) (u v : ℕ)
    → Takes req u v
    → (asked req u ≡ print_nat v) ⊎ (asked req u ≡ "0")
asked-Fits req u v h =
    ground (arith, asked-eq req u, print_nat-zero, eq_iff req.options.concurrency last_write, h)

pub asked-refused :
    {V : Type 0} (req : SetRequest V) (u v : ℕ)
    → u ≢ v
    → u ≢ 0
    → req.options.concurrency ≢ last_write
    → (asked req u ≢ print_nat v) × (asked req u ≢ "0")
asked-refused req u v ne nz nl =
    let e : asked req u ≡ print_nat u =
      ground (arith, asked-eq req u, eq_iff req.options.concurrency last_write, nl) in
    (
      λ p. ne (print_nat-injective u v (sym e ∙ p)),
      λ p. nz (print_nat-injective u 0 (sym e ∙ p ∙ sym print_nat-zero)),
    )

module _ {W V : Type 0} (s : Server W) (store : StateStore) (marshal : Value V → Result Bytes)
    (connected : IsConnected s) (laws : Documented s) where
  pub set_value-Takes :
      (req : SetRequest V) (u v : ℕ) (d : Bytes) (w : W)
      → HasOptions req
      → WaitsNot store req
      → Asks req u
      → u < 2 ^ 63
      → v + 1 < 2 ^ 63
      → IsAt s req.key v d w
      → Takes req u v
      → set_value s store marshal req w
        ≡ (ok tt, written s laws req.key (encode marshal req.value) w)
  unfolding set_answer
  set_value-Takes req u v d w h waits e b b' at fits =
      set_value-script s store marshal connected req u w h waits e b
      ∙ ap (λ r. (set_answer req.key r.0, r.1))
          (set_query-Fits s laws req.key (asked req u) (encode marshal req.value) v d w b' at
            (asked-Fits req u v fits))
