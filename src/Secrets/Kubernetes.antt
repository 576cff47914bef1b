-- ===== src/Secrets/Kubernetes.antt =====
-- secretstores/kubernetes/: the store for secrets of Kubernetes. The client library and the flags of
-- the command line are parameters.
use components_contrib.Base.{String, none, some, ◌==◌, if◌then◌else◌, created, Result, ok, err}
use components_contrib.Base.Effect.{Eff, ◌>>=◌, pure, lift, on_error}
use components_contrib.State.Requests.{Properties, present}
use components_contrib.Secrets.{Metadata, GetSecretRequest, GetSecretResponse}

-- `home_dir` is the home directory, `join_path` filepath.Join of it with .kube and config; `kube_flag`
-- is the flag kubeconfig with its default, after flag.Parse; to define it twice panics. `F` is a
-- configuration.
pub record Library (W F S : Type 0) : Type 0 where
  pub home_dir : W → String
  pub join_path : String → String
  pub kube_flag : String → Eff W String
  pub in_cluster_config : Eff W F
  pub build_config_from_flags : String → Eff W F
  pub new_for_config : F → Eff W S

-- `get` takes a namespace and a name.
pub record Clientset (W : Type 0) : Type 0 where
  pub get : String → String → Eff W Properties

module _ {W F : Type 0} (lib : Library W F (Clientset W)) where
  pub get_kube_client : Eff W (Clientset W)
  get_kube_client w =
      let home = lib.home_dir w in
      (do
        kubeconfig ← lib.kube_flag (if home == "" then "" else lib.join_path home)
        conf ← on_error lib.in_cluster_config (λ e. lib.build_config_from_flags kubeconfig)
        lib.new_for_config conf)
        w

  -- Whatever the metadata.
  pub init : Metadata → Eff W (Clientset W)
  unfolding get_kube_client
  init metadata = get_kube_client

pub get_namespace_from_metadata : Properties → Result String
get_namespace_from_metadata metadata = elim (present metadata "namespace") [
  | none ↦ err (created "namespace is missing on metadata")
  | some val ↦ ok val
]

pub get_secret : {W : Type 0} → Clientset W → GetSecretRequest → Eff W GetSecretResponse
unfolding get_namespace_from_metadata
get_secret kube_client req = do
  namespace ← lift (get_namespace_from_metadata req.metadata)
  secret ← kube_client.get namespace req.name
  pure (record { entries = secret })
