-- ===== src/Operators/Trust/Verified.antt =====
-- What stands in the known_hosts that prepare returns.
use ansible_roles.Prelude.{
  ◌≡◌, refl, sym, ap, ◌∙◌, ◌<>◌, ◌⊎◌, inl, inr, String, Bool, true, false, not, Option, none, some,
  List, [], ◌∷◌, All, arith, and_split, string_eq,
}
use ansible_roles.Result.{Result, ok, err, bind-eq-ok, ok_injective}
use ansible_roles.Json.{Json, str, Dict, object, get, index, truthy, eqb}
use ansible_roles.Json.Laws.{eqb-str}
use ansible_roles.Operators.Effects.{Log, Exec, pure}
use ansible_roles.Operators.Effects.Triple.{
  After, Anything, bind-returns, lift-returns, refuse_if-returns,
}
use ansible_roles.Operators.Resource.{Resource}
use ansible_roles.Operators.Reading.{get_path}
use ansible_roles.Operators.Common.{is_terminating, alias, inventory_hosts, host_names, Hosts}
use ansible_roles.Operators.Common.Keys.{Crypto, public_key, fingerprint}
use ansible_roles.Operators.Trust.{
  Trust, stripped, key_text, qualify, trusted_entry, prepare_each, prepare, reserved_phases,
  is_reserved, has_verified_key, has_fingerprint,
}

-- The Server is not being deleted.
abbrev pub IsKept : Resource → Type 0
IsKept server =
    (server.metadata.deletion_timestamp ≡ none) ⊎ (server.metadata.deletion_timestamp ≡ some "")

-- The provisioning does not own the Server.
abbrev pub IsUnreserved : Dict → Type 0
IsUnreserved provisioning =
    (truthy (get provisioning "maintenance") ≡ false)
    × All (λ (phase : String). eqb (get provisioning "phase") (str phase) ≡ false)
        ("PreparingBoot" ∷ "AwaitingLive" ∷ "Installing" ∷ "AwaitingInstalled" ∷ "Verifying" ∷ [])

-- The desired key pair is the installed one, and `print` is its fingerprint on both sides.
abbrev pub IsVerified : Dict → String → Type 0
IsVerified host print =
    (truthy (get host "keyReady") ≡ true)
    × (get host "phase" ≡ str "Ready")
    × (truthy (get host "keyPairRef") ≡ true)
    × (eqb (get host "installedKeyPairRef") (get host "keyPairRef") ≡ true)
    × (eqb (str print) (get host "fingerprint") ≡ true)
    × (eqb (get host "installedFingerprint") (get host "fingerprint") ≡ true)

module _ (crypto : Crypto) (read : String → Exec Log Resource) where
  -- The line of the Server that was read under the name: its alias and its public key.
  abbrev pub IsTrusted : String → String → Log → Log → Type 0
  IsTrusted name line log next =
      (server : Resource) × (provisioning host : Dict) × (value key print : String) × (read name log
        ≡ (ok server, next))
      × IsKept server
      × (get_path (object server.status) ("provisioning" ∷ []) ≡ ok provisioning)
      × IsUnreserved provisioning
      × (get_path (object server.status) ("hostSSH" ∷ []) ≡ ok host)
      × (index host "publicKey" ≡ ok (str value))
      × (public_key crypto value ≡ ok key)
      × (fingerprint crypto key ≡ ok print)
      × IsVerified host print
      × (line ≡ ("server-" <> server.metadata.uid) <> (" " <> (key <> "\n")))

  -- One line for each name, in their order, and nothing else after `before`: each of the Server that
  -- the next read returns, from the log that the reads before it have left.
  abbrev pub Lines : String → List String → String → Log → Log → Type 0
  Lines before [] text log after = (text ≡ before) × (log ≡ after)
  Lines before (name ∷ names) text log after =
      (line : String) × (next : Log) × IsTrusted name line log next
      × Lines (before <> line) names text next after

not-false : (b : Bool) → not b ≡ false → b ≡ true
not-false true h = refl
not-false false h = cc

kept_lem : (server : Resource) → is_terminating server ≡ false → IsKept server
unfolding is_terminating
kept_lem server h = go server.metadata.deletion_timestamp h
  where
    go :
        (o : Option String)
        → elim o [ none ↦ false | some t ↦ truthy (str t) ] ≡ false
        → (o ≡ none) ⊎ (o ≡ some "")
    go none h = inl refl
    go (some t) h = inr (ap some ((string_eq.same_iff t "").0 (ground arith)))

unreserved_lem :
    (provisioning : Dict) → is_reserved provisioning ≡ false → IsUnreserved provisioning
unfolding is_reserved reserved_phases
unreserved_lem provisioning h = (
  ground arith,
  (ground arith, (ground arith, (ground arith, (ground arith, (ground arith, tt))))),
)

verified_lem :
    (host : Dict) (print : String)
    → has_verified_key host ≡ true
    → has_fingerprint host print ≡ true
    → IsVerified host print
unfolding has_verified_key has_fingerprint
verified_lem host print h f =
    let (desired, installed) = and_split (eqb (str print) (get host "fingerprint")) _ f in
    let ready : eqb (get host "phase") (str "Ready") ≡ true = ground arith in
    (
      ground arith,
      eqb-str (get host "phase") "Ready" ready,
      ground arith,
      ground arith,
      desired,
      installed,
    )

key_text-eq-ok :
    (host : Dict) (value : String)
    → key_text host ≡ ok value
    → index host "publicKey" ≡ ok (str value)
unfolding key_text
key_text-eq-ok host value h =
    let (v, i, s) = bind-eq-ok (index host "publicKey") stripped h in i ∙ ap ok (go v s)
  where
    go : (v : Json) → stripped v ≡ ok value → v ≡ str value
    go (str s) e = ap str (ok_injective e)
    go Json.null e = cc
    go (Json.bool b) e = cc
    go (Json.int b) e = cc
    go (Json.arr b) e = cc
    go (Json.obj b) e = cc

alias_lem :
    (server : Resource) (qualified : String)
    → alias server ≡ ok qualified
    → "server-" <> server.metadata.uid ≡ qualified
unfolding alias
alias_lem server qualified h = ground arith

module _ (crypto : Crypto) (read : String → Exec Log Resource) where
  entry-IsTrusted :
      (name : String) (line : String × String) (s s' : Log)
      → trusted_entry crypto read name s ≡ (ok line, s')
      → IsTrusted crypto read name line.1 s s'
  unfolding trusted_entry pure
  entry-IsTrusted name line s s' h = bind-returns (read name) _ h λ server s1 r h1.
      refuse_if-returns (is_terminating server) _ _ h1 λ t h2.
        lift-returns (get_path (object server.status) ("provisioning" ∷ [])) _ h2
          λ provisioning p h3. refuse_if-returns (is_reserved provisioning) _ _ h3 λ v h4.
            lift-returns (get_path (object server.status) ("hostSSH" ∷ [])) _ h4 λ host o h5.
              refuse_if-returns (not (has_verified_key host)) _ _ h5 λ k h6.
                lift-returns (key_text host) _ h6 λ value x h7.
                  lift-returns (public_key crypto value) _ h7 λ key y h8.
                    lift-returns (fingerprint crypto key) _ h8 λ print z h9.
                      refuse_if-returns (not (has_fingerprint host print)) _ _ h9 λ f h10.
                        lift-returns (alias server) _ h10 λ qualified a h11. (
                          server,
                          provisioning,
                          host,
                          value,
                          key,
                          print,
                          r ∙ ap (λ (after : Log). (ok server, after)) (ap (λ x. x.1) h11),
                          kept_lem server t,
                          p,
                          unreserved_lem provisioning v,
                          o,
                          key_text-eq-ok host value x,
                          y,
                          z,
                          verified_lem host print (not-false _ k) (not-false _ f),
                          the_line server qualified key s1 s' (alias_lem server qualified a) h11,
                        )
    where
      the_line :
          (server : Resource) (qualified key : String) (before after : Log)
          → "server-" <> server.metadata.uid ≡ qualified
          → pure (qualified, qualified <> (" " <> (key <> "\n"))) before ≡ (ok line, after)
          → line.1 ≡ ("server-" <> server.metadata.uid) <> (" " <> (key <> "\n"))
      the_line server qualified key before after q e =
          sym (ap (λ (l : String × String). l.1) (ok_injective (ap (λ x. x.0) e)))
          ∙ ap (λ q. q <> (" " <> (key <> "\n"))) (sym q)

  each-Lines :
      (names : List String) (before : String) (inventory : Dict) (trust : Trust) (s s' : Log)
      → prepare_each crypto read names before inventory s ≡ (ok trust, s')
      → Lines crypto read before names trust.0 s s'
  unfolding prepare_each pure
  each-Lines [] before inventory trust s s' h =
      (sym (ap (λ (t : Trust). t.0) (ok_injective (ap (λ x. x.0) h))), ap (λ x. x.1) h)
  each-Lines (name ∷ names) before inventory trust s s' h =
      bind-returns (trusted_entry crypto read name) _ h λ line s1 e h1.
        lift-returns (qualify name line.0 inventory) _ h1 λ bound b h2. (
          line.1,
          s1,
          entry-IsTrusted name line s s1 e,
          each-Lines names (before <> line.1) bound trust s1 s' h2,
        )

  -- The text has one line for each host of the inventory, in their order, and nothing else.
  abbrev pub Trusts : Dict → String → Log → Log → Type 0
  Trusts inventory text log after =
      (hosts : Hosts) × (inventory_hosts inventory ≡ ok hosts)
      × Lines crypto read "" (host_names hosts) text log after

  prepare_lem :
      (inventory : Dict) (trust : Trust) (s s' : Log)
      → prepare crypto read inventory s ≡ (ok trust, s')
      → Trusts inventory trust.0 s s'
  unfolding prepare
  prepare_lem inventory trust s s' h =
      lift-returns (inventory_hosts inventory) _ h
        λ hosts e h1. (hosts, e, each-Lines (host_names hosts) "" inventory trust s s' h1)

  -- Where prepare returns, its known_hosts holds one line for each host of the inventory and
  -- nothing else, and it has done one read for each, of the Server under the name of the host. The
  -- line is of this Server: it is not being deleted, provisioning holds it neither in maintenance
  -- nor in one of its five phases, its desired key pair is ready and the installed one, and the line
  -- gives its alias and the public key of its status, whose fingerprint is both the desired and the
  -- installed one.
  pub prepare-IsTrusted :
      (inventory : Dict) (log : Log)
      → After
          (λ trust after. Trusts inventory trust.0 log after)
          Anything
          (prepare crypto read inventory log)
  prepare-IsTrusted inventory log =
      let (r, after) = prepare crypto read inventory log in go r after refl
    where
      go :
          (r : Result Trust) (after : Log)
          → prepare crypto read inventory log ≡ (r, after)
          → After (λ trust after. Trusts inventory trust.0 log after) Anything (r, after)
      go (ok trust) after h = prepare_lem inventory trust log after h
      go (err e) after h = tt
