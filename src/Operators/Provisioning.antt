-- ===== src/Operators/Provisioning.antt =====
-- operators/provisioning.py: the bound view of a Server and its run, and the checks on it that
-- every physical stage goes through.
pub mod Bound
pub mod Disk
pub mod Stages
pub mod Session
pub mod Pass
pub mod Guarded
pub mod Storage
use ansible_roles.Prelude.{
  ◌<>◌, String, Bool, true, false, not, ◌&&◌, ◌||◌, Option, none, some, List, [], ◌∷◌, ◌==◌,
  string_eq, if◌then◌else◌,
}
use ansible_roles.Result.{
  Error, Result, ok, err, operator_error, type_error, attribute_error, raise_if, ◌>>=◌, ◌>>◌,
}
use ansible_roles.Json.{
  Json, null, str, bool, obj, end, Dict, dict_of, object, get, get_or, index, subscript, truthy,
  eqb,
}
use ansible_roles.Operators.Resource.{Resource}
unfoldable pub use ansible_roles.Operators.Reading.{one_of, as_dict, path, get_path}

-- bind_run's local view: `value` and `value['_run']`.
pub record View : Type 0 where
  pub server : Resource
  pub run : Resource

-- What the checks call of Python and of OpenSSH's key format: `str.lower`, `str(ipaddress.ip_address(v))`
-- and `fingerprint` of a public key.
pub record Library : Type 0 where
  pub lower : Json → Result Json
  pub address : Json → Result Json
  pub fingerprint : Json → Result Json

abbrev pub blocked : String → Error
blocked message = operator_error "ProvisioningBlocked" message

-- `server.get('status', {}).get('provisioning', {})`
unfoldable pub attempt_or_empty : Resource → Result Dict
attempt_or_empty server = get_path (object server.status) ("provisioning" ∷ [])

-- `server['status']['provisioning']`
unfoldable pub attempt : View → Result Dict
attempt view = do v ← index view.server.status "provisioning"; as_dict v

-- `(status.get('networking') or {}).get('management', {})`
unfoldable pub management : Dict → Result Dict
management status =
    let networking = get status "networking" in
    get_path (if truthy networking then networking else obj end) ("management" ∷ [])

-- Only Servers that an explicitly created run has reserved.
unfoldable pub eligible : Resource → Result Bool
eligible server = do d ← attempt_or_empty server; ok (truthy (get d "activeRunRef"))

-- A run that is bound to another machine or Server, replaced, or being deleted.
unfoldable pub is_rebound : Resource → Dict → Resource → Bool
is_rebound run reference server =
    not (eqb (str run.metadata.uid) (get reference "uid"))
    || elim run.metadata.deletion_timestamp [ none ↦ false | some t ↦ truthy (str t) ]
    || not (
        eqb (get run.spec "serverRef")
          (object (("name", str server.metadata.name) ∷ ("uid", str server.metadata.uid) ∷ [])))
    || not (eqb (get run.spec "machineRef") (get server.status "machineRef"))

-- require_unchanged
unfoldable pub require_unchanged : Json → Json → String → Result (Unit {0})
require_unchanged actual expected description =
    raise_if (not (eqb actual expected)) (blocked (description <> " changed"))

-- A fresh read must still represent the same immutable run and checkpoint.
unfoldable pub validate_attempt_checkpoint : View → View → Result (Unit {0})
validate_attempt_checkpoint actual expected = do
  now ← attempt actual
  before ← attempt expected
  require_unchanged (str actual.run.metadata.uid) (str expected.run.metadata.uid)
      "ProvisioningRun identity"
  require_unchanged (object actual.run.spec) (object expected.run.spec) "ProvisioningRun request"
  id ← index before "attemptID"
  require_unchanged (get now "attemptID") id "Attempt ID"
  snapshot ← index before "snapshot"
  require_unchanged (get now "snapshot") snapshot "Pinned plan"
  require_unchanged (get now "phase") (get before "phase") "Checkpoint phase"

abbrev pub spec_inputs : List String
spec_inputs =
    "machineSelector" ∷ "boot" ∷ "operatingSystem" ∷ "sshCertificateAuthorityRef" ∷ "users"
    ∷ "groups" ∷ "packages" ∷ "sysctls" ∷ "featureFlags" ∷ "networking" ∷ "hostName" ∷ "domainName"
    ∷ []

unfoldable pub validate_inputs : List String → Dict → Dict → Result (Unit {0})
validate_inputs [] spec pinned = ok tt
validate_inputs (field ∷ fields) spec pinned = do
  require_unchanged (get spec field) (get pinned field) ("Server spec." <> field)
  validate_inputs fields spec pinned

module _ (lib : Library) where
  -- Desired inputs and physical and key bindings are still the pinned ones.
  unfoldable pub validate_pinned_server : Resource → Json → Bool → Result (Unit {0})
  validate_pinned_server server snapshot allow_network_pending = do
    inputs ← path snapshot ("inputs" ∷ "serverSpec" ∷ [])
    pinned ← as_dict inputs
    validate_inputs spec_inputs server.spec pinned
    machine ← subscript snapshot "machineRef"
    require_unchanged (get server.status "machineRef") machine "Machine binding"
    reported ← management server.status
    interface ← get_path (object reported) ("interface" ∷ [])
    boot_mac ← lib.lower (get_or interface "mac" (str ""))
    (if truthy boot_mac
        then (do
          pinned_mac ← subscript snapshot "bootMAC"
          require_unchanged boot_mac pinned_mac "Boot interface MAC")
        else ok tt)
    host ← get_path (object server.status) ("hostSSH" ∷ [])
    key ← subscript snapshot "keyPairRef"
    require_unchanged (get host "keyPairRef") key "Managed host key reference"
    raise_if (not (truthy boot_mac) && not allow_network_pending) (
        operator_error "ManagementNetworkPending"
          "Waiting for an unambiguous management interface and address")

-- Verified host identity and a supported installation target.
unfoldable pub identity : Library → Resource → Result (Unit {0})
identity lib server = do
  host ← get_path (object server.status) ("hostSSH" ∷ [])
  unverified ←
      (if not (truthy (get server.status "machineRef"))
          || not (truthy (get host "keyReady"))
          || not (eqb (get host "phase") (str "Ready"))
          || not (eqb (get host "installedKeyPairRef") (get host "keyPairRef"))
        then ok true
        else (do
          key ← index host "publicKey"
          known ← lib.fingerprint key
          ok (not (eqb known (get host "installedFingerprint")))))
  raise_if unverified
      (blocked "Managed host identity and binding must be verified before provisioning")
  os ← get_path (object server.spec) ("operatingSystem" ∷ [])
  raise_if
      (not (eqb (get os "architecture") (str "amd64"))
        || not (eqb (get os "bootMode") (str "uefi"))
        || not (
            eqb (get os "distribution") (str "arch") && eqb (get os "version") (str "rolling")
            || eqb (get os "distribution") (str "debian") && eqb (get os "version") (str "trixie")))
      (blocked "Supported targets are Arch rolling and Debian trixie on amd64 UEFI")
