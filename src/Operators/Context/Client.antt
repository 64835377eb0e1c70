-- ===== src/Operators/Context/Client.antt =====
-- install_kubectl and setup_context of operators/runner_kubernetes.py: the exact client release, and
-- the disposable context of an interactive runner. Files and downloads are calls.
use ansible_roles.Prelude.{
  ℕ, ◌<>◌, String, Bool, true, false, not, ◌&&◌, ◌||◌, List, [], ◌∷◌, all, length, leb, ltb, ◌==◌,
  nat_eq, string_eq, if◌then◌else◌,
}
use ansible_roles.Text.{codes, is_release, remove_prefix}
use ansible_roles.Result.{Result, ok, err, value_error}
use ansible_roles.Json.{Json, ℤ, null, int, str, Dict, object, get, truthy, eqb}
use ansible_roles.Operators.Effects.{
  Call, Log, Outside, Exec, pure, lift, ◌>>=◌, ◌>>◌, refuse_if, request, choose, given,
}
use ansible_roles.Operators.Resource.{Resource, json_object, json_string}
use ansible_roles.Operators.Api.{api_get}
use ansible_roles.Operators.Common.{is_terminating, generation, capture_inventory}
use ansible_roles.Operators.Common.Keys.{Crypto}
use ansible_roles.Operators.Context.{text_of, labels_json, verified_context}

-- `re.fullmatch(r'[a-f0-9]{64}', s)`
unfoldable pub is_checksum : String → Bool
is_checksum s =
    (length (codes s) == 64) && all (λ c. leb 48 c && leb c 57 || leb 97 c && leb c 102) (codes s)

-- `{'x86_64': 'amd64', 'aarch64': 'arm64'}.get(machine)`
unfoldable pub architecture : Json → Result String
architecture machine = elim (eqb machine (str "x86_64")) [
  | true ↦ ok "amd64"
  | false ↦ elim (eqb machine (str "aarch64")) [
    | true ↦ ok "arm64"
    | false ↦ err (value_error "Unsupported kubectl client architecture")
  ]
]

-- `'v' + version.removeprefix('v')` of a version that matches `v?\d+\.\d+\.\d+`
unfoldable pub kubectl_release : String → Result String
kubectl_release version =
    if is_release (remove_prefix version "v")
    then ok ("v" <> remove_prefix version "v")
    else err (value_error "Cluster Kubernetes version must be an exact release")

-- 128 MiB
abbrev pub largest_client : ℕ
largest_client = 134217728

-- A download answers with its size and its SHA-256.
unfoldable pub is_mismatch : Dict → String → Bool
is_mismatch download expected =
    exceeds (get download "size") || not (eqb (get download "sha256") (str expected))
  where
    exceeds : Json → Bool
    exceeds (int (ℤ.pos n)) = ltb largest_client n
    exceeds _ = true

-- `re.fullmatch(r'[a-z0-9][a-z0-9.-]*', name)`
unfoldable pub is_cluster_label : String → Bool
is_cluster_label name = matches (codes name)
  where
    matches : List ℕ → Bool
    matches [] = false
    matches (c ∷ cs) =
        (leb 48 c && leb c 57 || leb 97 c && leb c 122)
        && all (λ d. leb 48 d && leb d 57 || leb 97 d && leb d 122 || d == 45 || d == 46) cs

-- The group was replaced, edited or relabelled while the credentials were retrieved.
unfoldable pub is_other_group : Resource → Resource → Bool
is_other_group current group =
    not (current.metadata.uid == group.metadata.uid)
    || not (eqb (generation current) (generation group))
    || not (eqb (labels_json current.metadata.labels) (labels_json group.metadata.labels))

module _ (outside : Outside) where
  unfoldable pub install_kubectl : String → Exec Log (Unit {0})
  install_kubectl version = do
    release ← lift (kubectl_release version)
    machine ← request outside (Call.other "platform.machine" null)
    arch ← lift (architecture machine)
    let url = "https://dl.k8s.io/release/" <> (release <> ("/bin/linux/" <> (arch <> "/kubectl")))
    published ← request outside (Call.other "urlopen" (str (url <> ".sha256")))
    expected ← lift (json_string published "kubectl checksum")
    refuse_if (not (is_checksum expected)) (value_error "Invalid kubectl checksum")
    installed ← request outside (Call.other "sha256 of kubectl" null)
    choose (eqb installed (str expected)) (pure tt) (do
      answer ← request outside (Call.other "urlopen" (str url))
      download ← lift (json_object answer "download")
      refuse_if (is_mismatch download expected) (value_error "kubectl checksum mismatch")
      replaced ← request outside (Call.other "replace kubectl" (str expected))
      pure tt)

  -- Our old context goes before anything is resolved.
  unfoldable pub remove_owned : Exec Log (Unit {0})
  remove_owned = do
    owned ← request outside (Call.other "is_file homelab-context.json" null)
    choose (truthy owned)
        (do
          config ← request outside (Call.other "unlink config" null)
          marker ← request outside (Call.other "unlink homelab-context.json" null)
          pure tt)
        (pure tt)

module _ (outside : Outside) (crypto : Crypto) (ip_address : String → Result String) where
  -- What follows the test for the group's label.
  unfoldable pub install_context : String → Resource → Dict → String → Exec Log Bool
  install_context group_name group inventory name = do
    unmanaged ← request outside (Call.other "exists config" null)
    refuse_if (truthy unmanaged) (value_error "Refusing to overwrite an unmanaged kubeconfig")
    refuse_if (not (is_cluster_label name)) (value_error "Invalid cluster label")
    cluster ← api_get outside "kube-clusters" name
    refuse_if (is_terminating cluster) (value_error "Cluster is terminating")
    config ← verified_context outside crypto ip_address inventory cluster
    current ← capture_inventory outside group_name
    refuse_if (is_other_group current.0 group)
        (value_error "Inventory context changed during credential retrieval")
    version ← lift (json_string (get cluster.spec "kubernetesVersion") "Kubernetes version")
    install_kubectl outside version
    marker ← request outside (
        Call.other "write homelab-context.json"
          (object (("clusterUID", str cluster.metadata.uid) ∷ [])))
    written ← request outside (Call.other "write config" (object config))
    pure true

  unfoldable pub setup_context : String → Exec Log Bool
  setup_context group_name = do
    linked ← request outside (Call.other "is_symlink .kube" null)
    refuse_if (truthy linked) (value_error "Refusing symlinked Kubernetes context files")
    remove_owned outside
    captured ← capture_inventory outside group_name
    given (text_of captured.0.metadata.labels "homelab.io/kube-cluster") (pure false)
        (install_context group_name captured.0 captured.1)
