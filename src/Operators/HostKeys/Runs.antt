-- ===== src/Operators/HostKeys/Runs.antt =====
-- A run of the host key operator's secret, and the theorem at this run.
use ansible_roles.Prelude.{◌≡◌, ◌⊎◌, String, none, some, [], ◌∷◌, ◌==◌, string_eq, if◌then◌else◌}
use ansible_roles.Result.{Result, ok, err, http_error}
use ansible_roles.Json.{Json, null, int, pos, str, Dict, object}
use ansible_roles.Operators.Effects.{Call, Outside}
use ansible_roles.Operators.Effects.Triple.{After}
use ansible_roles.Operators.Resource.{Resource}
use ansible_roles.Operators.Common.Keys.{Crypto}
use ansible_roles.Operators.HostKeys.{host_private_key}
use ansible_roles.Operators.HostKeys.Revoked.{
  Revoked, Answered, secret_reads, host_private_key-Revoked,
}

abbrev host_status : Dict
host_status =
    (
      "hostSSH",
      object (
          ("keyPairRef", object (("name", str "pair") ∷ ("uid", str "u") ∷ []))
          ∷ ("publicKey", str "ssh-ed25519 key")
          ∷ []),
    )
    ∷ []

abbrev server : Resource
server = record {
  kind = "Server";
  api_version = none;
  metadata = record {
    name = "node";
    uid = "u";
    resource_version = "1";
    generation = some (pos 1);
    deletion_timestamp = none;
    annotations = none;
    labels = none;
    creation_timestamp = none;
    finalizers = none;
  };
  spec = [];
  status = host_status;
}

abbrev pair : Json
pair = object (
    ("kind", str "SSHKeyPair")
    ∷ (
      "metadata",
      object (
          ("name", str "pair")
          ∷ ("uid", str "u")
          ∷ ("resourceVersion", str "1")
          ∷ ("generation", int (pos 1))
          ∷ ("annotations", object (("homelab.io/server-uid", str "u") ∷ []))
          ∷ []),
    )
    ∷ (
      "spec",
      object (
          ("path", str "ssh/hosts/u")
          ∷ ("secretStoreRef", object (("name", str "openbao") ∷ []))
          ∷ []),
    )
    ∷ (
      "status",
      object (
          ("phase", str "Ready")
          ∷ ("observedGeneration", int (pos 1))
          ∷ ("publicKey", str "ssh-ed25519 key")
          ∷ []),
    )
    ∷ [])

abbrev secret : Json
secret = object (
    (
      "data",
      object (
          (
            "data",
            object (
                ("sshKeyPairUID", str "u")
                ∷ ("publicKey", str "ssh-ed25519 key")
                ∷ ("privateKey", str "private")
                ∷ []),
          )
          ∷ []),
    )
    ∷ [])

abbrev bao : String → Result Json
bao name =
    if name == "bao login"
    then ok (object (("auth", object (("client_token", str "token") ∷ [])) ∷ []))
    else (if name == "bao read" then ok secret else ok null)

abbrev vault : Outside
vault log call = elim call [
  | Call.get collection name ↦ ok pair
  | Call.other name v ↦ bao name
  | _ ↦ err (http_error 404)
]

abbrev wire_key : Crypto
wire_key = record {
  decode64 = λ s. ok (
      0 ∷ 0 ∷ 0 ∷ 11 ∷ 115 ∷ 115 ∷ 104 ∷ 45 ∷ 101 ∷ 100 ∷ 50 ∷ 53 ∷ 53 ∷ 49 ∷ 57 ∷ 0 ∷ 0 ∷ 0 ∷ 32
      ∷ 1 ∷ 2 ∷ 3 ∷ 4 ∷ 5 ∷ 6 ∷ 7 ∷ 8 ∷ 9 ∷ 10 ∷ 11 ∷ 12 ∷ 13 ∷ 14 ∷ 15 ∷ 16 ∷ 17 ∷ 18 ∷ 19 ∷ 20
      ∷ 21 ∷ 22 ∷ 23 ∷ 24 ∷ 25 ∷ 26 ∷ 27 ∷ 28 ∷ 29 ∷ 30 ∷ 31 ∷ 32 ∷ []);
  encode64 = λ xs. "print=";
  sha256 = λ xs. xs;
}

host_private_key-Revoked_example :
    After
      (λ _ after. Revoked [] after × Answered after)
      (λ after. Revoked [] after ⊎ (secret_reads after ≡ secret_reads []))
      (host_private_key vault wire_key "openbao" server [])
host_private_key-Revoked_example = host_private_key-Revoked vault wire_key "openbao" server []
