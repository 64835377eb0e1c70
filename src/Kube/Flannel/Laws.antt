-- ===== src/Kube/Flannel/Laws.antt =====
-- The environment of a Flannel container that reaches the API directly.
use ansible_roles.Prelude.{
  ◌≡◌, sym, subst, ◌≢◌, String, Bool, true, false, List, [], ◌∷◌, ◌++◌, ◌⊎◌, inl, inr,
  if◌then◌else◌, arith, Bool-cases, or_split,
}
use ansible_roles.Result.{ok, bind-eq-ok, ok_injective}
use ansible_roles.Json.{Json, str, Dict, get, get_or, arr, nil, object, array, insert, eqb}
use ansible_roles.Json.Laws.{eqb-str, eqb-str_self}
use ansible_roles.Kube.{mapping, require_list}
use ansible_roles.Kube.Flannel.{is_override, kept_entries, variable, direct_container}

-- The second list is the first without the entries that are named KUBERNETES_SERVICE_HOST or
-- KUBERNETES_SERVICE_PORT.
pub data Without : List Json → List Json → Type 0 where
  empty : Without [] []
  leave_out :
      {raw : Json} {rest others : List Json} (entry : Dict)
      → mapping raw "Flannel env" ≡ ok entry
      → (get entry "name" ≡ str "KUBERNETES_SERVICE_HOST")
        ⊎ (get entry "name" ≡ str "KUBERNETES_SERVICE_PORT")
      → Without rest others
      → Without (raw ∷ rest) others
  keep_it :
      {raw : Json} {rest others : List Json} (entry : Dict)
      → mapping raw "Flannel env" ≡ ok entry
      → get entry "name" ≢ str "KUBERNETES_SERVICE_HOST"
      → get entry "name" ≢ str "KUBERNETES_SERVICE_PORT"
      → Without rest others
      → Without (raw ∷ rest) (raw ∷ others)

is_override-true :
    (name : Json)
    → is_override name ≡ true
    → (name ≡ str "KUBERNETES_SERVICE_HOST") ⊎ (name ≡ str "KUBERNETES_SERVICE_PORT")
unfolding is_override
is_override-true name h = elim (or_split _ _ h) [
  | inl p ↦ inl (eqb-str name "KUBERNETES_SERVICE_HOST" p)
  | inr p ↦ inr (eqb-str name "KUBERNETES_SERVICE_PORT" p)
]

is_override-false :
    (name : Json)
    → is_override name ≡ false
    → (name ≢ str "KUBERNETES_SERVICE_HOST") × (name ≢ str "KUBERNETES_SERVICE_PORT")
unfolding is_override
is_override-false name h = (
  λ e. differs "KUBERNETES_SERVICE_HOST" e (ground arith),
  λ e. differs "KUBERNETES_SERVICE_PORT" e (ground arith),
)
  where
    differs : (s : String) → name ≡ str s → eqb name (str s) ≡ false → ⊥
    differs s e f =
        let t = subst (λ v. eqb v (str s) ≡ true) (sym e) (eqb-str_self s) in ground arith

kept_entries-Without :
    (entries kept : List Json) → kept_entries entries ≡ ok kept → Without entries kept
unfolding kept_entries
kept_entries-Without [] kept h = subst (Without []) (ok_injective h) empty
kept_entries-Without (raw ∷ rest) kept h =
    let (entry, m, h1) = bind-eq-ok (mapping raw "Flannel env") _ h in
    let (others, o, h2) = bind-eq-ok (kept_entries rest) _ h1 in
    let below = kept_entries-Without rest others o in
    elim (Bool-cases (is_override (get entry "name"))) [
      | inl p ↦
          subst (Without (raw ∷ rest)) (chosen others entry true p h2)
            (leave_out entry m (is_override-true _ p) below)
      | inr p ↦
          let (host, port) = is_override-false _ p in
          subst (Without (raw ∷ rest)) (chosen others entry false p h2)
            (keep_it entry m host port below)
    ]
  where
    chosen :
        (others : List Json) (entry : Dict) (b : Bool)
        → is_override (get entry "name") ≡ b
        → ok (if is_override (get entry "name") then others else raw ∷ others) ≡ ok kept
        → (if b then others else raw ∷ others) ≡ kept
    chosen others entry b p e =
        subst (λ b. (if b then others else raw ∷ others) ≡ kept) p (ok_injective e)

-- The adapted container is the given one with another environment.
abbrev pub Overrides : String → String → Json → Json → Type 0
Overrides host port raw adapted =
    (container : Dict) × (environment others : List Json) × (mapping raw "Flannel container"
      ≡ ok container)
    × (require_list (get_or container "env" (arr nil)) "Flannel container env must be an array"
        ≡ ok environment)
    × Without environment others
    × (adapted
        ≡ object (
            insert "env"
              (array (
                others
                ++ (variable "KUBERNETES_SERVICE_HOST" host
                    ∷ variable "KUBERNETES_SERVICE_PORT" port
                    ∷ [])))
              container))

-- If a container is adapted, the result is that container with another environment: its entries
-- that are not named KUBERNETES_SERVICE_HOST or KUBERNETES_SERVICE_PORT, in their order, and behind
-- them one entry for each of the two names, with the API's host and port.
pub direct_container-Overrides :
    (host port : String) (raw adapted : Json)
    → direct_container (host, port) raw ≡ ok adapted
    → Overrides host port raw adapted
unfolding direct_container
direct_container-Overrides host port raw adapted h =
    let (container, c, h1) = bind-eq-ok (mapping raw "Flannel container") _ h in
    let (environment, e, h2) =
      bind-eq-ok
        (require_list (get_or container "env" (arr nil)) "Flannel container env must be an array") _
        h1 in
    let (kept, k, h3) = bind-eq-ok (kept_entries environment) _ h2 in
    (
      container,
      environment,
      kept,
      c,
      e,
      kept_entries-Without environment kept k,
      sym (ok_injective h3),
    )
