-- ===== src/Bindings/Services/Kubernetes.antt =====
-- bindings/kubernetes/kubernetes.go: the binding to the events of a namespace. The client library is a
-- parameter.
use components_contrib.Base.{ℕ, zero, suc, String, Option, none, some, Error, Result, ok, err}
use components_contrib.Base.Effect.{Eff, ignore, ◌>>=◌, ◌>>◌, pure, lift}
use components_contrib.Base.Text.{◌+s◌}
use components_contrib.State.Requests.{Bytes, lookup}
use components_contrib.Bindings.Messages.{Metadata, ReadResponse, response}

-- What a `select` on the two channels receives. An event is nil when the channel is closed.
pub data Received (V : Type 0) : Type 0 where
  event : V → Received V
  closed : Received V
  failed : Option Error → Received V

-- `connect` takes the path to watch, and gives the two channels.
pub record Client (W V : Type 0) : Type 0 where
  pub connect : String → Eff W (W → Received V × W)

pub record KubernetesInput (W V : Type 0) : Type 0 where
  pub client : Client W V
  pub namespace : String

pub parse_metadata : Metadata → String
parse_metadata metadata = elim (lookup metadata.properties "namespace") [
  | none ↦ "default"
  | some ns ↦ ns
]

module _ {W V C : Type 0} (load_kube_config : Eff W C) (new_client : C → Client W V) where
  pub init : Metadata → Eff W (KubernetesInput W V)
  unfolding parse_metadata
  init metadata = do
    c ← load_kube_config
    pure (record { client = new_client c; namespace = parse_metadata metadata })

module _ {W V : Type 0} (marshal : V → Result Bytes)
    (handler : ReadResponse → Eff W (Unit {0})) where
  -- The loop of Read for `fuel` receipts; `none` is that it goes on. The handler's error is dropped.
  pub watch_events : (W → Received V × W) → ℕ → Eff W (Option (Unit {0}))
  watch_events select zero w = (ok none, w)
  watch_events select (suc fuel) w =
      let (received, w') = select w in
      elim received [
        | event obj ↦
            (lift (marshal obj) >>= λ payload.
            ignore (handler (response payload)) >> watch_events select fuel)
              w'
        | closed ↦ (ok (some tt), w')
        | failed none ↦ (ok (some tt), w')
        | failed (some e) ↦ (err e, w')
      ]

  pub read : KubernetesInput W V → ℕ → Eff W (Option (Unit {0}))
  unfolding watch_events
  read k fuel = do
    select ← k.client.connect ("/api/v1/namespaces/" +s k.namespace +s "/events")
    watch_events select fuel
