-- ===== src/Kube/Flannel.antt =====
-- filter_plugins/kube_plan.py: the Flannel release manifest, adapted to the cluster. The functions
-- that change a document in place return it here. json.loads, json.dumps with sorted keys and the
-- hexadecimal SHA-256 are parameters (Codec).
pub mod Laws
use ansible_roles.Prelude.{
  ◌<>◌, String, Bool, true, false, not, ◌&&◌, ◌||◌, Option, none, some, List, [], ◌∷◌, ◌++◌, length,
  keep, any, ◌==◌, nat_eq, string_eq, if◌then◌else◌,
}
use ansible_roles.Result.{
  Result, ok, err, value_error, raise_if, any_result, map_result, ◌>>=◌, ◌>>◌,
}
use ansible_roles.Json.{
  Json, bool, str, arr, obj, nil, end, Dict, object, array, get, get_or, index, insert, subscript,
  eqb,
}
use ansible_roles.Text.{rpartition}
use ansible_roles.Kube.{mapping, text, require_list}

pub record Codec : Type 0 where
  pub loads : String → Result Json
  pub dumps : Json → String
  pub sha256 : String → String

-- `s.endswith(t)`
unfoldable pub ends_with : String → String → Bool
ends_with String.[] t = t == ""
ends_with (String.◌∷◌ c s) t = String.◌∷◌ c s == t || ends_with s t

-- The test of one container.
unfoldable pub is_release_image : String → Json → Result Bool
is_release_image version raw = do
  container ← mapping raw "Flannel container"
  image ← text (get container "image") "Flannel image"
  ok (ends_with image (":v" <> version))

unfoldable pub flannel_daemon_matches : Dict → String → Result Bool
flannel_daemon_matches document version = do
  daemon ← mapping (get document "spec") "daemon spec"
  template ← mapping (get daemon "template") "pod template"
  pod ← mapping (get template "spec") "pod spec"
  containers ← require_list (get pod "containers") "Flannel containers must be an array"
  any_result (is_release_image version) containers

unfoldable pub is_flannel : Json → Result Bool
is_flannel plugin = do p ← mapping plugin "CNI plugin"; ok (eqb (get p "type") (str "flannel"))

-- How many plugins are Flannel's.
unfoldable pub flannel_plugins : List Json → Result (List Json)
flannel_plugins [] = ok []
flannel_plugins (p ∷ ps) = do
  hit ← is_flannel p
  rest ← flannel_plugins ps
  ok (if hit then p ∷ rest else rest)

-- The bridge follows the Node's subnet, and pod addresses do not outlive a boot.
unfoldable pub adapt_plugin : Dict → Result Dict
adapt_plugin plugin = do
  delegate ← mapping (get_or plugin "delegate" (obj end)) "Flannel bridge delegate"
  ipam ← mapping (get_or plugin "ipam" (obj end)) "Flannel IPAM"
  ok (
      insert "ipam" (object (insert "dataDir" (str "/run/cni/flannel-networks") ipam))
        (insert "delegate" (object (insert "forceAddress" (bool true) delegate)) plugin))

unfoldable pub adapt_if_flannel : Json → Result Json
adapt_if_flannel raw = do
  plugin ← mapping raw "CNI plugin"
  elim (eqb (get plugin "type") (str "flannel")) [
    | true ↦ (do adapted ← adapt_plugin plugin; ok (object adapted))
    | false ↦ ok raw
  ]

-- The data with the adapted configuration, and its digest.
unfoldable pub configure_flannel_cni : Codec → Dict → Result (Dict × String)
configure_flannel_cni codec data_ = do
  source ← text (get data_ "cni-conf.json") "Flannel CNI config"
  parsed ← codec.loads source
  config ← mapping parsed "Flannel CNI config"
  plugins ← require_list (get config "plugins") "Flannel CNI plugins must be an array"
  found ← flannel_plugins plugins
  raise_if (not (length found == 1)) (value_error "Expected exactly one Flannel CNI plugin")
  adapted ← map_result adapt_if_flannel plugins
  let filled =
      insert "cni-conf.json" (str (codec.dumps (object (insert "plugins" (array adapted) config))))
        data_
  ok (filled, codec.sha256 (codec.dumps (object filled)))

unfoldable pub annotate_cni_rollout : Dict → String → Result Dict
annotate_cni_rollout document digest = do
  s ← index document "spec"
  daemon ← mapping s "daemon spec"
  t ← index daemon "template"
  template ← mapping t "pod template"
  metadata ← mapping (get_or template "metadata" (obj end)) "pod metadata"
  annotations ← mapping (get_or metadata "annotations" (obj end)) "pod annotations"
  let noted = insert "homelab.io/cni-config-sha256" (str digest) annotations
  ok (
      insert "spec"
        (object (
          insert "template"
            (object
              (insert "metadata" (object (insert "annotations" (object noted) metadata)) template))
            daemon))
        document)

-- `endpoint.rpartition(':')`: host and port.
unfoldable pub host_port : String → String × String
host_port endpoint = elim (rpartition 58 endpoint) [ none ↦ ("", endpoint) | some parts ↦ parts ]

unfoldable pub is_override : Json → Bool
is_override name =
    eqb name (str "KUBERNETES_SERVICE_HOST") || eqb name (str "KUBERNETES_SERVICE_PORT")

-- The entries that the overrides do not replace.
unfoldable pub kept_entries : List Json → Result (List Json)
kept_entries [] = ok []
kept_entries (raw ∷ rest) = do
  entry ← mapping raw "Flannel env"
  others ← kept_entries rest
  ok (if is_override (get entry "name") then others else raw ∷ others)

abbrev pub variable : String → String → Json
variable name value = object (("name", str name) ∷ ("value", str value) ∷ [])

unfoldable pub direct_container : String × String → Json → Result Json
direct_container (host, port) raw = do
  container ← mapping raw "Flannel container"
  environment ←
      require_list (get_or container "env" (arr nil)) "Flannel container env must be an array"
  kept ← kept_entries environment
  ok (
      object (
        insert "env"
          (array (
            kept
            ++ (variable "KUBERNETES_SERVICE_HOST" host
                ∷ variable "KUBERNETES_SERVICE_PORT" port
                ∷ [])))
          container))

unfoldable pub use_direct_api_endpoint : Dict → String → Result Dict
use_direct_api_endpoint document endpoint = do
  s ← index document "spec"
  daemon ← mapping s "daemon spec"
  t ← index daemon "template"
  template ← mapping t "pod template"
  p ← index template "spec"
  pod ← mapping p "pod spec"
  containers ← require_list (get pod "containers") "Flannel containers must be an array"
  direct ← map_result (direct_container (host_port endpoint)) containers
  ok (
      insert "spec"
        (object (
          insert "template"
            (object (insert "spec" (object (insert "containers" (array direct) pod)) template))
            daemon))
        document)

-- The kind and namespace of a document must be Flannel's.
unfoldable pub check_document : Dict → Dict → Result (Unit {0})
check_document document metadata = do
  raise_if
      (eqb (get document "kind") (str "Namespace")
        && not (eqb (get metadata "name") (str "kube-flannel")))
      (value_error "Flannel must use its dedicated kube-flannel namespace")
  raise_if
      ((eqb (get document "kind") (str "ServiceAccount")
          || eqb (get document "kind") (str "ConfigMap")
          || eqb (get document "kind") (str "DaemonSet"))
        && not (eqb (get metadata "namespace") (str "kube-flannel")))
      (value_error "Unexpected Flannel namespace")

unfoldable pub is_flannel_kind : Json → Bool
is_flannel_kind kind =
    any (λ k. eqb kind (str k))
      ("Namespace" ∷ "ServiceAccount" ∷ "ClusterRole" ∷ "ClusterRoleBinding" ∷ "ConfigMap"
        ∷ "DaemonSet" ∷ [])

-- The Pod network in the network configuration, and the CNI configuration; with its digest.
unfoldable pub adapt_config : Codec → Dict → Dict → Result (Dict × String)
adapt_config codec settings document = do
  data_ ← mapping (get document "data") "Flannel data"
  source ← text (get data_ "net-conf.json") "Flannel network config"
  parsed ← codec.loads source
  config ← mapping parsed "Flannel network config"
  cidr ← index settings "podCIDR"
  let filled =
      insert "net-conf.json" (str (codec.dumps (object (insert "Network" cidr config)))) data_
  (changed, digest) ← configure_flannel_cni codec filled
  ok (insert "data" (object changed) document, digest)

-- One document, with the digest and the finding so far.
unfoldable pub adapt_document :
    Codec → Dict → Dict → String → Dict → String × Bool → Result (Dict × (String × Bool))
adapt_document codec plan settings version document (digest, found) = do
  raise_if (not (is_flannel_kind (get document "kind")))
      (value_error "Unexpected resource in Flannel release manifest")
  metadata ← mapping (get document "metadata") "Flannel metadata"
  check_document document metadata
  labels ← mapping (get_or metadata "labels" (obj end)) "Flannel labels"
  uid ← index plan "uid"
  let labelled =
      insert "metadata"
        (object
          (insert "labels" (object (insert "homelab.io/kube-cluster-uid" uid labels)) metadata))
        document
  (adapted, newest) ←
      (if eqb (get document "kind") (str "ConfigMap")
          && eqb (get metadata "name") (str "kube-flannel-cfg")
        then adapt_config codec settings labelled
        else ok (labelled, digest))
  matches ←
      (if eqb (get document "kind") (str "DaemonSet")
        then flannel_daemon_matches adapted version
        else ok found)
  ok (adapted, (newest, matches))

unfoldable pub adapt_documents :
    Codec → Dict → Dict → String → List Json → String × Bool → Result (List Dict × (String × Bool))
adapt_documents codec plan settings version [] seen = ok ([], seen)
adapt_documents codec plan settings version (raw ∷ rest) seen = do
  document ← mapping raw "Flannel resource"
  (adapted, next) ← adapt_document codec plan settings version document seen
  (others, last) ← adapt_documents codec plan settings version rest next
  ok (adapted ∷ others, last)

-- The second loop: a DaemonSet rolls out the configuration.
unfoldable pub roll_out : Dict → Dict → String → Dict → Result Json
roll_out plan settings digest document =
    if eqb (get document "kind") (str "DaemonSet")
    then (do
      annotated ← annotate_cni_rollout document digest
      direct ←
          (if eqb (get_or plan "networkApiEndpoint" (str "direct")) (str "direct")
            then (do
              endpoint ← text (get settings "controlPlaneEndpoint") "endpoint"
              use_direct_api_endpoint annotated endpoint)
            else ok annotated)
      ok (object direct))
    else ok (object document)

unfoldable pub flannel_objects : Codec → Json → Json → Result Json
flannel_objects codec raw_documents raw_plan = do
  plan ← mapping raw_plan "cluster plan"
  settings ← mapping (get plan "settings") "settings"
  network ← mapping (get settings "network") "network"
  version ← text (get network "version") "Flannel version"
  raw ← require_list raw_documents "Flannel documents must be an array"
  (documents, (digest, found)) ← adapt_documents codec plan settings version raw ("", false)
  raise_if (digest == "" || not found)
      (value_error "Release manifest does not contain the selected Flannel version/config")
  items ← map_result (roll_out plan settings digest) documents
  ok (object (("apiVersion", str "v1") ∷ ("kind", str "List") ∷ ("items", array items) ∷ []))
