-- ===== src/Operators/HostKeys/Pass.antt =====
-- pin_first_contact, run_play, reconcile_owned and reconcile of operators/ssh_host_keys.py, and
-- ssh_probe of operators/common.py.
use ansible_roles.Prelude.{
  ◌<>◌, String, Bool, true, false, not, ◌&&◌, ◌||◌, none, List, [], ◌∷◌, ◌==◌, string_eq, nat_eq,
  if◌then◌else◌,
}
use ansible_roles.Text.{starts_with}
use ansible_roles.Result
use ansible_roles.Result.{
  Error, Result, ok, err, runtime_error, operator_error, value_error, interrupted, raise_if,
  map_result,
}
use ansible_roles.Json.{
  Json, ℤ, null, bool, int, str, arr, Dict, object, get, index, truthy, eqb, list_of,
}
use ansible_roles.Operators.Effects.{
  Call, Log, Outside, Exec, pure, raise, lift, catch, choose, ◌>>=◌, ◌>>◌, refuse_if, request,
}
use ansible_roles.Operators.Resource.{Resource, json_object, json_string}
use ansible_roles.Operators.Reading.{get_path, path}
use ansible_roles.Operators.Api.{patch_status}
use ansible_roles.Operators.Operation.{reservation, operation_progress}
use ansible_roles.Operators.Common.{alias, ssh_args}
use ansible_roles.Operators.Common.Keys.{Crypto, public_key, fingerprint, words}
use ansible_roles.Operators.Trust.{is_reserved}
use ansible_roles.Operators.HostKeys.{
  text_at, key_at, current_host, host_private_key, observation, required_generation,
}

-- The libraries, files and environment of the operator.
pub record Tools : Type 0 where
  pub crypto : Crypto
  pub secret_store : String
  pub ip_address : String → Result String
  pub join : List String → String
  pub certificate_file : String
  pub private_key_file : String
  pub directory : String

-- `part in s`
unfoldable pub contains : String → String → Bool
contains String.[] part = starts_with String.[] part
contains (String.◌∷◌ c s) part = starts_with (String.◌∷◌ c s) part || contains s part

unfoldable pub probe_error : String → Error
probe_error stderr =
    if contains stderr "Host key verification failed"
      || contains stderr "REMOTE HOST IDENTIFICATION HAS CHANGED"
    then operator_error "HostIdentityMismatch"
        "SSH host identity changed; explicit recovery or reenrollment is required"
    else (if contains stderr "Permission denied"
        then operator_error "ManagementAuthenticationFailed"
            "SSH management certificate authentication failed"
        else operator_error "SSHConnectionFailed"
            "SSH identity/authentication verification failed or the target is unreachable")

-- A line of known_hosts that a first contact wrote: three fields, of this Server's alias.
unfoldable pub contact_key : Crypto → String → String → Result String
contact_key crypto qualified line = elim (words line) [
  | name ∷ algorithm ∷ body ∷ [] ↦
      if name == qualified
      then public_key crypto (algorithm <> (" " <> body))
      else err (runtime_error "Unexpected bootstrap known_hosts entry")
  | _ ↦ err (runtime_error "Unexpected bootstrap known_hosts entry")
]

unfoldable pub is_entry : String → Bool
is_entry line = not (line == "") && not (starts_with line "#")

unfoldable pub contact_keys : Crypto → String → List String → Result (List String)
contact_keys crypto qualified [] = ok []
contact_keys crypto qualified (line ∷ lines) = elim (is_entry line) [
  | true ↦
      Result.◌>>=◌ (contact_key crypto qualified line)
        λ key. Result.◌>>=◌ (contact_keys crypto qualified lines) λ keys. ok (key ∷ keys)
  | false ↦ contact_keys crypto qualified lines
]

unfoldable pub only_key : List String → Result String
only_key (key ∷ []) = ok key
only_key _ = err (runtime_error "Expected exactly one first-contact host key")

unfoldable pub lines_of : Json → Result (List String)
lines_of (arr xs) = map_result (λ v. json_string v "known_hosts line") (list_of xs)
lines_of _ = err (value_error "known_hosts must be lines")

-- A managed identity that is installed, and not the desired one.
unfoldable pub is_unapproved : Dict → Result Bool
is_unapproved trust = elim (truthy (get trust "installedKeyPairRef")) [
  | false ↦ ok false
  | true ↦ ok (
      not (eqb (get trust "installedKeyPairRef") (get trust "keyPairRef"))
      || not (eqb (get trust "installedFingerprint") (get trust "fingerprint")))
]

-- The keys of known_hosts: bootstrap keys are never of an established Server.
unfoldable pub trusted_keys : Crypto → Dict → Result (List String)
trusted_keys crypto trust = Result.◌>>=◌ (key_at crypto trust "publicKey") λ managed.
    elim (not (truthy (get trust "installedKeyPairRef"))
      && truthy (get trust "bootstrapPublicKey")) [
        | false ↦ ok (managed ∷ [])
        | true ↦
            Result.◌>>=◌ (key_at crypto trust "bootstrapPublicKey")
              λ pin. ok (if pin == managed then managed ∷ [] else managed ∷ pin ∷ [])
      ]

unfoldable pub known_lines : String → List String → String
known_lines qualified [] = ""
known_lines qualified (key ∷ keys) =
    (qualified <> (" " <> (key <> "\n"))) <> known_lines qualified keys

-- `returncode`
unfoldable pub play_code : Json → Result Json
play_code v = Result.◌>>=◌ (json_object v "completed process") λ d. index d "returncode"

-- The managed key, or the user-CA trust of management, is not there yet.
unfoldable pub is_pending : Resource → Dict → Result Bool
is_pending server trust =
    elim (not (truthy (get trust "keyReady"))
      || not (truthy (get trust "keyPairRef"))
      || not (truthy (get server.status "desiredSSHTrustBundleDigest"))) [
        | true ↦ ok true
        | false ↦
            Result.◌>>=◌ (get_path (object server.status) ("sshTrust" ∷ []))
              λ bundle. ok (not (truthy (get bundle "publicBundle")))
      ]

module _ (outside : Outside) (tools : Tools) where
  unfoldable pub write_file : String → Json → Exec Log (Unit {0})
  write_file name contents = do
    written ←
        request outside
          (Call.other "write_private" (object (("name", str name) ∷ ("contents", contents) ∷ [])))
    pure tt

  -- ssh_probe; the call answers with the return code and the text of standard error.
  unfoldable pub ssh_probe : Resource → String → String → String → Exec Log (Unit {0})
  ssh_probe server host known checking = do
    arguments ← lift (
        ssh_args server (tools.directory <> ("/" <> known)) checking tools.certificate_file
          tools.private_key_file)
    address ← lift (tools.ip_address host)
    answer ← request outside (
        Call.other "ssh" (
          object (
            ("arguments", str (tools.join arguments))
            ∷ ("destination", str ("ansible@" <> address))
            ∷ [])))
    output ← lift (json_object answer "completed process")
    stderr ← lift (json_string (get output "stderr") "standard error")
    refuse_if (truthy (get output "returncode")) (probe_error stderr)

  unfoldable pub pin_first_contact : Resource → String → Exec Log Resource
  pin_first_contact server host = do
    write_file "first-contact-known-hosts" (str "")
    ssh_probe server host "first-contact-known-hosts" "accept-new"
    contents ← request outside (Call.other "read first-contact-known-hosts" null)
    lines ← lift (lines_of contents)
    qualified ← lift (alias server)
    keys ← lift (contact_keys tools.crypto qualified lines)
    key ← lift (only_key keys)
    latest ← current_host outside tools.crypto tools.secret_store server
    trust ← lift (get_path (object latest.status) ("hostSSH" ∷ []))
    refuse_if (truthy (get trust "bootstrapPublicKey") || truthy (get trust "installedKeyPairRef"))
        (runtime_error "Another build enrolled this Server; retry using its persisted identity")
    patch_status outside latest (
        (
          "hostSSH",
          object (
              ("bootstrapPublicKey", str key)
              ∷ ("phase", str "BootstrapPinned")
              ∷ ("reason", str "FirstContactRecorded")
              ∷ ("message", str "First-contact host key recorded using TOFU")
              ∷ []),
        )
        ∷ [])

  unfoldable pub play_hosts : Resource → String → Exec Log Json
  play_hosts server host = do
    address ← lift (tools.ip_address host)
    qualified ← lift (alias server)
    arguments ← lift (
        ssh_args server (tools.directory <> "/known_hosts") "yes" tools.certificate_file
          tools.private_key_file)
    pure (
        object (
          (
            "all",
            object (
                (
                  "hosts",
                  object (
                      (
                        server.metadata.name,
                        object (
                            ("ansible_host", str address)
                            ∷ ("ansible_user", str "ansible")
                            ∷ ("ansible_become", bool true)
                            ∷ ("host_key_alias", str qualified)
                            ∷ ("ansible_ssh_args", str (tools.join arguments))
                            ∷ ("ansible_ssh_common_args", str "")
                            ∷ ("ansible_ssh_extra_args", str "")
                            ∷ []),
                      )
                      ∷ []),
                )
                ∷ []),
          )
          ∷ []))

  unfoldable pub run_play : Resource → String → String → Dict → Exec Log (Unit {0})
  run_play server host play variables = do
    inventory ← play_hosts server host
    write_file "inventory.json" inventory
    write_file "variables.json" (object variables)
    result ← request outside (Call.other "ansible-playbook" (str play))
    code ← lift (play_code result)
    refuse_if (eqb code (int (ℤ.pos 4)) || eqb code (int (ℤ.pos 6)))
        (operator_error "RemoteWorkUncertain" "SSH transport failed; inspect remote work")
    refuse_if (truthy code)
        (operator_error "SSHReconciliationFailed" "Ansible reconciliation failed")

  -- The snapshot with the pin that a first contact wrote, where the Server has neither a pin nor an
  -- installed identity.
  unfoldable pub enrolled : Resource → String → Dict → Exec Log Resource
  enrolled server host trust =
      choose
        (not (truthy (get trust "bootstrapPublicKey"))
          && not (truthy (get trust "installedKeyPairRef")))
        (pin_first_contact server host) (pure server)

  unfoldable pub verified_fields : Dict → Json → Result Dict
  verified_fields trust observed = Result.◌>>=◌ (index trust "keyPairRef") λ pair.
      Result.◌>>=◌ (index trust "fingerprint") λ print. ok (
        ("bootstrapPublicKey", null)
        ∷ ("installedKeyPairRef", pair)
        ∷ ("installedFingerprint", print)
        ∷ ("observedGeneration", observed)
        ∷ ("phase", str "Ready")
        ∷ ("reason", str "ManagedHostKeyVerified")
        ∷ ("message", str "Fresh SSH connection verified managed host identity")
        ∷ [])

  -- From the trusted connection on.
  unfoldable pub install_identity : Resource → String → Dict → Exec Log (Unit {0})
  install_identity snapshot host trust = do
    qualified ← lift (alias snapshot)
    keys ← lift (trusted_keys tools.crypto trust)
    write_file "known_hosts" (str (known_lines qualified keys))
    ssh_probe snapshot host "known_hosts" "yes"
    server ← current_host outside tools.crypto tools.secret_store snapshot
    private ← host_private_key outside tools.crypto tools.secret_store server
    write_file "host_key" (str private)
    output ← request outside (Call.other "ssh-keygen" (str "host_key"))
    text ← lift (json_string output "derived public key")
    derived ← lift (public_key tools.crypto text)
    managed ← lift (key_at tools.crypto trust "publicKey")
    refuse_if (not (derived == managed))
        (runtime_error "Host private key does not match desired public identity")
    again ← current_host outside tools.crypto tools.secret_store server
    operation_progress outside server "Reconcile managed SSH host identity"
    run_play server host "ssh_host_keys.yml" (
        ("managed_host_private_key_file", str (tools.directory <> "/host_key"))
        ∷ ("managed_host_public_key", str managed)
        ∷ [])
    write_file "known_hosts" (str (known_lines qualified (managed ∷ [])))
    ssh_probe server host "known_hosts" "yes"
    operation_progress outside server "Reconcile SSH user certificate trust"
    bundle ← lift (path (object server.status) ("sshTrust" ∷ "publicBundle" ∷ []))
    digest ← lift (index server.status "desiredSSHTrustBundleDigest")
    run_play server host "ssh_trust.yml"
        (("ssh_ca_bundle", bundle) ∷ ("ssh_ca_bundle_digest", digest) ∷ [])
    ssh_probe server host "known_hosts" "yes"
    observed ← lift (required_generation server)
    fields ← lift (verified_fields trust observed)
    patched ←
        observation outside tools.crypto tools.secret_store server fields
          (get trust "bootstrapPublicKey") (("installedSSHTrustBundleDigest", digest) ∷ [])
    pure tt

  unfoldable pub reconcile_owned : Resource → String → Exec Log (Unit {0})
  reconcile_owned server host = do
    provisioning ← lift (get_path (object server.status) ("provisioning" ∷ []))
    choose (is_reserved provisioning) (pure tt) (do
      trust ← lift (get_path (object server.status) ("hostSSH" ∷ []))
      pending ← lift (is_pending server trust)
      choose pending (pure tt) (do
        key ← lift (text_at trust "publicKey")
        print ← lift (fingerprint tools.crypto key)
        refuse_if (not (eqb (str print) (get trust "fingerprint")))
            (runtime_error "Desired public host identity is inconsistent")
        unapproved ← lift (is_unapproved trust)
        refuse_if unapproved (runtime_error "Unapproved managed host identity replacement")
        snapshot ← enrolled server host trust
        pinned ← lift (get_path (object snapshot.status) ("hostSSH" ∷ []))
        install_identity snapshot host pinned))

  unfoldable pub is_busy_error : Error → Bool
  is_busy_error (operator_error reason message) = reason == "OperationBusy"
  is_busy_error _ = false

  -- A busy Server is left to the next pass.
  unfoldable pub reconcile_host : Resource → String → Exec Log (Unit {0})
  reconcile_host server host =
      catch
        (reservation outside server "reconcile-ssh" "ssh-host-keys" none "servers"
          λ operation claimed. reconcile_owned claimed host)
        (λ e. choose (is_busy_error e) (pure tt) (raise e))
