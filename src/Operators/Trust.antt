-- ===== src/Operators/Trust.antt =====
-- operators/runner_trust.py: the known_hosts entries of an inventory's Servers, from verified
-- managed identities alone.
pub mod Verified
use ansible_roles.Prelude.{◌<>◌, String, Bool, not, ◌&&◌, ◌||◌, none, some, List, [], ◌∷◌}
use ansible_roles.Result
use ansible_roles.Result.{Result, ok, err, runtime_error, attribute_error}
use ansible_roles.Json.{
  Json, str, obj, end, Dict, object, get, get_or, index, insert, lookup, truthy, eqb,
}
use ansible_roles.Operators.Effects.{Log, Exec, pure, lift, ◌>>=◌, ◌>>◌, refuse_if}
use ansible_roles.Operators.Resource.{Resource}
use ansible_roles.Operators.Reading.{one_of, as_dict, get_path}
use ansible_roles.Operators.Common.{is_terminating, alias, inventory_hosts, host_names}
use ansible_roles.Operators.Common.Keys.{Crypto, public_key, fingerprint}

unfoldable pub reserved_phases : List String
reserved_phases =
    "PreparingBoot" ∷ "AwaitingLive" ∷ "Installing" ∷ "AwaitingInstalled" ∷ "Verifying" ∷ []

unfoldable pub is_reserved : Dict → Bool
is_reserved provisioning =
    truthy (get provisioning "maintenance") || one_of (get provisioning "phase") reserved_phases

-- The desired key pair is the one that was verified as installed.
unfoldable pub has_verified_key : Dict → Bool
has_verified_key host =
    truthy (get host "keyReady")
    && eqb (get host "phase") (str "Ready")
    && truthy (get host "keyPairRef")
    && eqb (get host "installedKeyPairRef") (get host "keyPairRef")

unfoldable pub has_fingerprint : Dict → String → Bool
has_fingerprint host print =
    eqb (str print) (get host "fingerprint")
    && eqb (get host "installedFingerprint") (get host "fingerprint")

-- A value that is stripped: only a text has that.
abbrev pub stripped : Json → Result String
stripped (str s) = ok s
stripped _ = err attribute_error

-- `host["publicKey"]`, which `public_key` strips
unfoldable pub key_text : Dict → Result String
key_text host = Result.◌>>=◌ (index host "publicKey") stripped

-- `group["hosts"][name]["ansible_ssh_common_args"] = …`, where the group holds the host.
-- `shlex.quote` leaves an alias as it is: it is of letters, digits and dashes.
unfoldable pub qualify_group : String → String → Json → Result Json
qualify_group name qualified v = Result.◌>>=◌ (as_dict v) λ group.
    Result.◌>>=◌ (as_dict (get_or group "hosts" (obj end))) λ hosts. elim (lookup name hosts) [
      | none ↦ ok v
      | some w ↦ Result.◌>>=◌ (as_dict w) λ variables. ok (
          object (
            insert "hosts"
              (object (
                insert name
                  (object (
                    insert "ansible_ssh_common_args" (str ("-o HostKeyAlias=" <> qualified))
                      variables))
                  hosts))
              group))
    ]

unfoldable pub qualify : String → String → Dict → Result Dict
qualify name qualified [] = ok []
qualify name qualified ((key, group) ∷ groups) =
    Result.◌>>=◌ (qualify_group name qualified group)
      λ changed. Result.◌>>=◌ (qualify name qualified groups) λ rest. ok ((key, changed) ∷ rest)

-- The entries of known_hosts, and the inventory with its hosts bound to them.
abbrev pub Trust : Type 0
Trust = String × Dict

-- `read` is `api.get("servers", …)`.
module _ (crypto : Crypto) (read : String → Exec Log Resource) where
  -- The line of one host.
  unfoldable pub trusted_entry : String → Exec Log (String × String)
  trusted_entry name = do
    server ← read name
    refuse_if (is_terminating server) (runtime_error "Server is terminating")
    provisioning ← lift (get_path (object server.status) ("provisioning" ∷ []))
    refuse_if (is_reserved provisioning)
        (runtime_error ("Server " <> (name <> " is reserved by provisioning")))
    host ← lift (get_path (object server.status) ("hostSSH" ∷ []))
    refuse_if (not (has_verified_key host))
        (runtime_error ("Server " <> (name <> " has not verified its managed SSH identity")))
    value ← lift (key_text host)
    key ← lift (public_key crypto value)
    print ← lift (fingerprint crypto key)
    refuse_if (not (has_fingerprint host print))
        (runtime_error "Server host-key fingerprint mismatch")
    qualified ← lift (alias server)
    pure (qualified, qualified <> (" " <> (key <> "\n")))

  unfoldable pub prepare_each : List String → String → Dict → Exec Log Trust
  prepare_each [] entries inventory = pure (entries, inventory)
  prepare_each (name ∷ names) entries inventory = do
    line ← trusted_entry name
    bound ← lift (qualify name line.0 inventory)
    prepare_each names (entries <> line.1) bound

  unfoldable pub prepare : Dict → Exec Log Trust
  prepare inventory = do
    hosts ← lift (inventory_hosts inventory)
    prepare_each (host_names hosts) "" inventory
