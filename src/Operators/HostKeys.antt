-- ===== src/Operators/HostKeys.antt =====
-- operators/ssh_host_keys.py: one pass that pins, installs and verifies a Server's SSH host identity.
-- SSH, Ansible, ssh-keygen and OpenBao are calls.
pub mod Pass
pub mod Revoked
mod Runs
use ansible_roles.Prelude.{
  ℕ, zero, suc, ◌<>◌, String, Bool, true, false, not, ◌&&◌, ◌||◌, Option, none, some, List, [], ◌∷◌,
  ◌++◌, ◌==◌, string_eq, nat_eq,
}
use ansible_roles.Result
use ansible_roles.Result.{
  Error, Result, ok, err, runtime_error, key_error, attribute_error, raise_if,
}
use ansible_roles.Json.{
  Json, null, int, str, Dict, object, get, get_or, index, subscript, truthy, eqb,
}
use ansible_roles.Operators.Effects.{
  Call, Log, Outside, Exec, pure, raise, lift, catch, choose, ◌>>=◌, ◌>>◌, refuse_if, request,
}
use ansible_roles.Operators.Resource.{Resource, json_object, json_string}
use ansible_roles.Operators.Reading.{get_path, as_dict, path}
use ansible_roles.Operators.Api.{api_get, patch_status}
use ansible_roles.Operators.Operation.{is_conflict}
use ansible_roles.Operators.Common.{is_terminating}
use ansible_roles.Operators.Common.Keys.{Crypto, public_key}
use ansible_roles.Operators.Context.{text_of, says}

-- `metadata["generation"]`
unfoldable pub required_generation : Resource → Result Json
required_generation r = elim r.metadata.generation [
  | none ↦ err (key_error "generation")
  | some n ↦ ok (int n)
]

-- `for field in fields: if observed.get(field) != expected.get(field): raise …`
unfoldable pub unchanged : String → List String → Dict → Dict → Result (Unit {0})
unchanged what [] observed expected = ok tt
unchanged what (field ∷ fields) observed expected =
    Result.◌>>=◌
      (raise_if (not (eqb (get observed field) (get expected field)))
        (runtime_error (what <> (field <> " changed; retry next pass"))))
      λ _. unchanged what fields observed expected

unfoldable pub bound_fields : List String
bound_fields = "operationRef" ∷ "machineRef" ∷ "desiredSSHTrustBundleDigest" ∷ []

unfoldable pub host_fields : List String
host_fields =
    "keyPairRef" ∷ "publicKey" ∷ "fingerprint" ∷ "keyReady" ∷ "bootstrapPublicKey"
    ∷ "installedKeyPairRef" ∷ "installedFingerprint" ∷ []

-- `value[key]` that is stripped, and is so a text.
unfoldable pub text_at : Dict → String → Result String
text_at d key = Result.◌>>=◌ (index d key) as_text
  where
    as_text : Json → Result String
    as_text (str s) = ok s
    as_text _ = err attribute_error

-- `public_key(value[key])`
unfoldable pub key_at : Crypto → Dict → String → Result String
key_at crypto d key = Result.◌>>=◌ (text_at d key) (public_key crypto)

-- Another owner than the Server, or another place than its own.
unfoldable pub is_foreign_key : Resource → Dict → Resource → Result Bool
is_foreign_key key reference server = Result.◌>>=◌ (index reference "uid") λ uid.
    elim (not (eqb (str key.metadata.uid) uid)
      || is_terminating key
      || not
          (says (text_of key.metadata.annotations "homelab.io/server-uid") server.metadata.uid)) [
            | true ↦ ok true
            | false ↦
                Result.◌>>=◌ (index key.spec "path")
                  λ place. ok (not (eqb place (str ("ssh/hosts/" <> server.metadata.uid))))
          ]

-- The key pair's status is current, and its public key the desired one.
unfoldable pub is_current_key : Crypto → Resource → Dict → Result Bool
is_current_key crypto key host = elim (eqb (get key.status "phase") (str "Ready")) [
  | false ↦ ok false
  | true ↦ Result.◌>>=◌ (required_generation key) λ desired.
      elim (eqb (get key.status "observedGeneration") desired) [
        | false ↦ ok false
        | true ↦
            Result.◌>>=◌ (key_at crypto key.status "publicKey")
              λ owned. Result.◌>>=◌ (key_at crypto host "publicKey") λ wanted. ok (owned == wanted)
      ]
]

-- The secret that OpenBao returned is that of the desired identity.
unfoldable pub is_same_identity : Crypto → Dict → Json → Dict → Result Bool
is_same_identity crypto secret uid host = elim (eqb (get secret "sshKeyPairUID") uid) [
  | false ↦ ok false
  | true ↦ Result.◌>>=◌ (json_string (get secret "publicKey") "OpenBao publicKey") λ text.
      Result.◌>>=◌ (public_key crypto text)
        λ stored. Result.◌>>=◌ (key_at crypto host "publicKey") λ wanted. ok (stored == wanted)
]

-- `try: m` and `finally: f`
unfoldable pub finally : {A : Type 0} → Exec Log A → Exec Log (Unit {0}) → Exec Log A
finally m f log = let (r, log') = m log in (f >> lift r) log'

-- The secret's `data`, and the private key in it.
unfoldable pub private_key : Crypto → Json → Json → Dict → Result String
private_key crypto response uid host =
    Result.◌>>=◌ (json_object response "API response") λ envelope.
      Result.◌>>=◌ (json_object (get envelope "data") "OpenBao version") λ version.
        Result.◌>>=◌ (json_object (get version "data") "OpenBao key data") λ secret.
          Result.◌>>=◌ (is_same_identity crypto secret uid host) λ same.
            Result.◌>>=◌
              (raise_if (not same)
                (runtime_error "OpenBao host identity does not match the owned SSHKeyPair"))
              λ _. json_string (get secret "privateKey") "OpenBao privateKey"

-- `auth.client_token` of the login.
unfoldable pub client_token : Json → Result String
client_token login = Result.◌>>=◌ (json_object login "API response") λ envelope.
    Result.◌>>=◌ (json_object (get envelope "auth") "OpenBao auth")
      λ auth. json_string (get auth "client_token") "OpenBao client_token"

abbrev pub read_secret : String → String → Call
read_secret uid token =
    Call.other "bao read" (object (("uid", str uid) ∷ ("token", str token) ∷ []))

abbrev pub revoke_token : String → Call
revoke_token token = Call.other "bao revoke-self" (object (("token", str token) ∷ []))

-- `secret_store` is HOST_KEY_SECRET_STORE of the environment, or "openbao".
module _ (outside : Outside) (crypto : Crypto) (secret_store : String) where
  unfoldable pub current_host : Resource → Exec Log Resource
  current_host snapshot = do
    server ← api_get outside "servers" snapshot.metadata.name
    refuse_if (is_terminating server) (runtime_error "Server is terminating; retry next pass")
    provisioning ← lift (get_path (object server.status) ("provisioning" ∷ []))
    refuse_if (truthy (get provisioning "maintenance"))
        (runtime_error "Provisioning owns the Server; retry next pass")
    refuse_if (not (server.metadata.uid == snapshot.metadata.uid))
        (runtime_error "Server uid changed; retry next pass")
    now ← lift (required_generation server)
    before ← lift (required_generation snapshot)
    refuse_if (not (eqb now before)) (runtime_error "Server generation changed; retry next pass")
    same ← lift (unchanged "Server " bound_fields server.status snapshot.status)
    networking ← lift (get_path (object server.status) ("networking" ∷ []))
    expected ← lift (get_path (object snapshot.status) ("networking" ∷ []))
    refuse_if (not (eqb (get networking "management") (get expected "management")))
        (runtime_error "Management binding changed; retry next pass")
    observed_host ← lift (get_path (object server.status) ("hostSSH" ∷ []))
    expected_host ← lift (get_path (object snapshot.status) ("hostSSH" ∷ []))
    kept ← lift (unchanged "Host SSH " host_fields observed_host expected_host)
    pure server

  -- What follows the login: the read, and the revocation of its token whatever the read gives.
  unfoldable pub read_private : String → Json → Resource → Dict → Exec Log String
  read_private token uid server host =
      finally
        (do
          response ← request outside (read_secret server.metadata.uid token)
          lift (private_key crypto response uid host))
        (request outside (revoke_token token) >>= λ _. pure tt)

  unfoldable pub host_private_key : Resource → Exec Log String
  host_private_key server = do
    found ← lift (index server.status "hostSSH")
    host ← lift (as_dict found)
    reference_value ← lift (index host "keyPairRef")
    reference ← lift (as_dict reference_value)
    name_value ← lift (index reference "name")
    name ← lift (json_string name_value "name")
    key ← api_get outside "ssh-key-pairs" name
    foreign ← lift (is_foreign_key key reference server)
    refuse_if foreign (runtime_error "Host key ownership does not match the Server")
    is_current ← lift (is_current_key crypto key host)
    refuse_if (not is_current) (runtime_error "Owned host key is not current and Ready")
    store ← lift (path (object key.spec) ("secretStoreRef" ∷ "name" ∷ []))
    refuse_if (not (eqb store (str secret_store)))
        (runtime_error "Host key belongs to a different SecretStore")
    login ← request outside (Call.other "bao login" null)
    token ← lift (client_token login)
    uid ← lift (index reference "uid")
    read_private token uid server host

  -- The rounds of observation: `n` are left; a pin of null is none.
  unfoldable pub observe_rounds : ℕ → Resource → Dict → Json → Dict → Exec Log Resource
  observe_rounds zero snapshot fields pin additional =
      raise (runtime_error "Concurrent Server status updates; retry next pass")
  observe_rounds (suc n) snapshot fields pin additional = do
    latest ← current_host snapshot
    host ← lift (get_path (object latest.status) ("hostSSH" ∷ []))
    refuse_if (not (eqb pin null) && not (eqb (get host "bootstrapPublicKey") pin))
        (runtime_error "Bootstrap enrollment changed; refusing stale transition")
    catch (patch_status outside latest (("hostSSH", object fields) ∷ additional))
        (λ e. choose (is_conflict e) (observe_rounds n snapshot fields pin additional) (raise e))

  unfoldable pub observation : Resource → Dict → Json → Dict → Exec Log Resource
  observation = observe_rounds 5
