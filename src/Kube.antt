-- ===== src/Kube.antt =====
-- filter_plugins/kube_plan.py: the checks at the boundary of the data that Ansible hands over, which
-- every filter of the plugin uses. The filters are the modules below.
pub mod Boundary
pub mod Members
pub mod Settings
pub mod Plan
pub mod HostNetwork
pub mod Nodes
pub mod Registration
pub mod Artifacts
pub mod Membership
pub mod Flannel
mod Tests
mod Runs
use Prim.Native.String.{count}
use ansible_roles.Prelude.{
  ◌<>◌, String, Bool, true, false, ◌&&◌, List, all, leb, ◌==◌, string_eq, if◌then◌else◌,
}
use ansible_roles.Result.{Result, ok, err, value_error, ◌>>=◌}
use ansible_roles.Json.{Json, str, obj, arr, Dict, dict_of, list_of}
use ansible_roles.Text.{codes, split, label_matches}
use ansible_roles.Ipv4.{Ipv4Network, ip_network}

-- Require a mapping.
unfoldable pub mapping : Json → String → Result Dict
mapping (obj fs) context = ok (dict_of fs)
mapping _ context = err (value_error (context <> " must be a mapping"))

-- Require a nonempty string.
unfoldable pub text : Json → String → Result String
text (str s) context =
    if s == "" then err (value_error (context <> " must be a nonempty string")) else ok s
text _ context = err (value_error (context <> " must be a nonempty string"))

-- `isinstance(value, list)`, with the error that the caller names.
unfoldable pub require_list : Json → String → Result (List Json)
require_list (arr xs) message = ok (list_of xs)
require_list _ message = err (value_error message)

dns_label : String → Bool
dns_label label = leb (count label) 63 && label_matches (codes label)

unfoldable pub dns_name : String → Bool
unfolding dns_label
dns_name value = leb (count value) 253 && all dns_label (split 46 value)

unfoldable pub ipv4_network : Json → String → Result Ipv4Network
ipv4_network value context = do s ← text value context; ip_network s true
