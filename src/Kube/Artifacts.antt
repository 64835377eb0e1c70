-- ===== src/Kube/Artifacts.antt =====
-- changed_binaries and installed_artifacts of filter_plugins/kube_plan.py: the binaries on a host
-- against the verified ones, and the protected manifest of an installation.
pub mod Laws
use ansible_roles.Prelude.{
  ℕ, String, Bool, true, false, not, ◌&&◌, ◌||◌, List, [], ◌∷◌, length, all, leb, ◌==◌, nat_eq,
  if◌then◌else◌,
}
use ansible_roles.Result.{Result, ok, err, value_error, raise_if, ◌>>=◌, ◌>>◌}
use ansible_roles.Json.{Json, str, Dict, object, array, get, index, has, truthy, eqb}
use ansible_roles.Text.{codes}
use ansible_roles.Kube.{mapping, text, require_list}

-- `not actual.get('exists') or actual.get('checksum') != expected.get('checksum')`
unfoldable pub differs : Dict → Dict → Bool
differs actual expected =
    not (truthy (get actual "exists"))
    || not (eqb (get actual "checksum") (get expected "checksum"))

-- `source.item.dest`
unfoldable pub destination : Dict → Result String
destination source = do
  file ← mapping (get source "item") "artifact file"
  text (get file "dest") "destination path"

unfoldable pub changed_paths : List Json → Result (List String)
changed_paths [] = ok []
changed_paths (raw ∷ rest) = do
  result ← mapping raw "destination inspection"
  actual ← mapping (get result "stat") "destination stat"
  source ← mapping (get result "item") "verified artifact"
  expected ← mapping (get source "stat") "verified artifact stat"
  elim (differs actual expected) [
    | false ↦ changed_paths rest
    | true ↦ do path ← destination source; paths ← changed_paths rest; ok (path ∷ paths)
  ]

unfoldable pub changed_binaries : Json → Result (List String)
changed_binaries raw_results = do
  results ← require_list raw_results "Binary inspection results must be an array"
  changed_paths results

-- The reviewed binaries, by path.
unfoldable pub components : List (String × String)
components =
    ("/usr/local/bin/containerd", "runtime")
    ∷ ("/usr/local/bin/ctr", "runtime")
    ∷ ("/usr/local/bin/containerd-shim-runc-v2", "runtime")
    ∷ ("/usr/local/bin/runc", "runtime")
    ∷ ("/usr/local/bin/kubeadm", "kubernetes")
    ∷ ("/usr/local/bin/kubelet", "kubernetes")
    ∷ ("/usr/local/bin/kubectl", "kubernetes")
    ∷ ("/opt/cni/bin/bridge", "cni")
    ∷ ("/opt/cni/bin/host-local", "cni")
    ∷ ("/opt/cni/bin/loopback", "cni")
    ∷ ("/opt/cni/bin/portmap", "cni")
    ∷ []

-- `re.fullmatch('[0-9a-f]{64}', checksum)`
unfoldable pub is_sha256 : String → Bool
is_sha256 s =
    length (codes s) == 64 && all (λ c. leb 48 c && leb c 57 || leb 97 c && leb c 102) (codes s)

-- `files.keys() != components.keys()`: the same keys, in any order.
unfoldable pub same_keys : Dict → List (String × String) → Bool
same_keys files wanted =
    all (λ (key, _). has key wanted) files && all (λ (key, _). has key files) wanted

-- One entry of the result.
pub record Artifact : Type 0 where
  pub dest : String
  pub component : String
  pub checksum : String

unfoldable pub artifact_json : Artifact → Json
artifact_json a = object (
    ("item", object (("dest", str a.dest) ∷ ("component", str a.component) ∷ []))
    ∷ ("stat", object (("checksum", str a.checksum) ∷ []))
    ∷ [])

unfoldable pub manifest : Dict → List (String × String) → Result (List Artifact)
manifest files [] = ok []
manifest files ((path, component) ∷ rest) = do
  value ← index files path
  checksum ← text value "installed checksum"
  raise_if (not (is_sha256 checksum)) (value_error "Protected binary checksum is invalid")
  others ← manifest files rest
  ok (record { dest = path; component = component; checksum = checksum } ∷ others)

unfoldable pub installed_artifacts : Json → Result (List Artifact)
installed_artifacts raw_identity = do
  identity ← mapping raw_identity "protected installation"
  files ← mapping (get identity "files") "protected binary manifest"
  raise_if (not (same_keys files components))
      (value_error "Protected manifest does not contain exactly the reviewed binary paths")
  manifest files components
