-- ===== src/Kube/Members/Collects.antt =====
-- The loop over the captured Servers, run by run.
use ansible_roles.Prelude.{
  ◌≡◌, subst, refl, sym, ◌≢◌, inl, inr, String, Bool, true, false, List, [], ◌∷◌, All, All-map,
  Apart, In, arith, string_eq,
}
use ansible_roles.Result.{◌>>=◌, ok, bind-eq-ok}
use ansible_roles.Json.{Json, obj, end, Dict, get_or}
use ansible_roles.Kube.{mapping}
use ansible_roles.Kube.Members.{Member, member_of, collect, is_labelled}
use ansible_roles.Kube.Members.Laws.{
  IsValid, Describes, Distinct, Fresh, member_of-fresh, member_of-IsValid, member_of-Describes,
}

-- The runs of the loop that end well: a Server without the label is passed over, and one with it
-- gives a member.
pub data Collects (cluster uid : String) : List String → List Json → List Member → Type 0 where
  done : (names : List String) → Collects cluster uid names [] []
  skip :
      {names : List String} {raw : Json} {nodes : List Json} {ms : List Member} (node labels : Dict)
      → mapping raw "captured Server" ≡ ok node
      → mapping (get_or node "labels" (obj end)) "Server labels" ≡ ok labels
      → is_labelled labels cluster ≡ false
      → Collects cluster uid names nodes ms
      → Collects cluster uid names (raw ∷ nodes) ms
  take :
      {names : List String} {raw : Json} {nodes : List Json} {ms : List Member} (node labels : Dict)
      (m : Member)
      → mapping raw "captured Server" ≡ ok node
      → mapping (get_or node "labels" (obj end)) "Server labels" ≡ ok labels
      → is_labelled labels cluster ≡ true
      → member_of uid names node labels ≡ ok m
      → Collects cluster uid (m.node_name ∷ names) nodes ms
      → Collects cluster uid names (raw ∷ nodes) (m ∷ ms)

module _ (cluster uid : String) where
  pub Collects-collect :
      (nodes : List Json) (names : List String) (ms : List Member)
      → collect cluster uid nodes names ≡ ok ms
      → Collects cluster uid names nodes ms
  unfolding collect
  Collects-collect [] names ms h = subst (Collects cluster uid names []) (cc) (done names)
  Collects-collect (raw ∷ nodes) names ms h =
      let (node, p, q) = bind-eq-ok (mapping raw "captured Server") _ h in
      let (labels, r, s) =
        bind-eq-ok (mapping (get_or node "labels" (obj end)) "Server labels") _ q in
      go node labels p r (Collects-collect nodes names ms)
        (λ more rest. Collects-collect nodes more rest) (is_labelled labels cluster) refl s
    where
      go :
          (node labels : Dict)
          → mapping raw "captured Server" ≡ ok node
          → mapping (get_or node "labels" (obj end)) "Server labels" ≡ ok labels
          → (collect cluster uid nodes names ≡ ok ms → Collects cluster uid names nodes ms)
          → ((more : List String) (rest : List Member)
              → collect cluster uid nodes more ≡ ok rest
              → Collects cluster uid more nodes rest)
          → (b : Bool) → is_labelled labels cluster ≡ b
          → elim b [
            | false ↦ collect cluster uid nodes names
            | true ↦ member_of uid names node labels >>= λ m.
                collect cluster uid nodes (m.node_name ∷ names) >>= λ rest. ok (m ∷ rest)
          ]
            ≡ ok ms
          → Collects cluster uid names (raw ∷ nodes) ms
      go node labels p r same more false e s = skip node labels p r e (same s)
      go node labels p r same more true e s =
          let (m, made, t) = bind-eq-ok (member_of uid names node labels) _ s in
          let (rest, tail, u) = bind-eq-ok (collect cluster uid nodes (m.node_name ∷ names)) _ t in
          subst (Collects cluster uid names (raw ∷ nodes)) (cc)
            (take node labels m p r e made (more (m.node_name ∷ names) rest tail))

-- A name that is not in `names` with `n` in front is not `n`, and not in `names`.
Fresh-cons :
    (n : String) (names : List String) (m : Member)
    → Fresh (n ∷ names) m
    → (m.node_name ≢ n) × Fresh names m
Fresh-cons n names m h = (λ e. ground (arith, string_eq.same_iff m.node_name n), ground arith)

Distinct-of_Fresh :
    (n : Member) (names : List String) (m : Member) → Fresh (n.node_name ∷ names) m → Distinct n m
Distinct-of_Fresh n names m h = λ e. (Fresh-cons n.node_name names m h).0 (sym e)

pub Collects-Apart :
    {cluster uid : String} {names : List String} {nodes : List Json} {ms : List Member}
    → Collects cluster uid names nodes ms
    → All (Fresh names) ms × Apart Distinct ms × All IsValid ms
Collects-Apart (done names) = (tt, tt, tt)
Collects-Apart (skip node labels p r e rest) = Collects-Apart rest
Collects-Apart {uid = uid} {names = names} (take {ms = ms} node labels m p r e made rest) =
    let (fresh, apart, valid) = Collects-Apart rest in
    (
      (
        (member_of-fresh uid names node labels made).0,
        All-map (Fresh (m.node_name ∷ names)) (Fresh names)
            (λ n f. (Fresh-cons m.node_name names n f).1) ms fresh,
      ),
      (
        All-map (Fresh (m.node_name ∷ names)) (Distinct m) (Distinct-of_Fresh m names) ms fresh,
        apart,
      ),
      (member_of-IsValid uid names node labels made, valid),
    )

-- A captured Server that carries the cluster's label.
pub record BelongsTo (cluster : String) (raw : Json) (node : Dict) : Type 0 where
  pub server : mapping raw "captured Server" ≡ ok node
  pub labels : Dict
  pub read : mapping (get_or node "labels" (obj end)) "Server labels" ≡ ok labels
  pub labelled : is_labelled labels cluster ≡ true

pub Collects-complete :
    {cluster uid : String} {names : List String} {nodes : List Json} {ms : List Member}
    → Collects cluster uid names nodes ms
    → (raw : Json) (node : Dict) → In raw nodes
    → BelongsTo cluster raw node
    → (m : Member) × In m ms × Describes m node
Collects-complete (done names) raw node i s = absurd i
Collects-complete (skip n l p r e rest) raw node (inr i) s = Collects-complete rest raw node i s
Collects-complete (skip n l p r e rest) raw node (inl i) s =
    absurd (ground (arith, s.server, s.read, s.labelled))
Collects-complete (take n l m p r e made rest) raw node (inr i) s =
    let (k, at, d) = Collects-complete rest raw node i s in (k, inr at, d)
Collects-complete {uid = uid} {names = names} (take n l m p r e made rest) raw node (inl i) s =
    (m, inl refl, subst (Describes m) (cc s.server) (member_of-Describes uid names n l made))

pub Collects-sound :
    {cluster uid : String} {names : List String} {nodes : List Json} {ms : List Member}
    → Collects cluster uid names nodes ms
    → (m : Member) → In m ms
    → (raw : Json) × (node : Dict) × In raw nodes × BelongsTo cluster raw node × Describes m node
Collects-sound (done names) m i = absurd i
Collects-sound (skip n l p r e rest) m i =
    let (raw, node, at, s, d) = Collects-sound rest m i in (raw, node, inr at, s, d)
Collects-sound (take n l k p r e made rest) m (inr i) =
    let (raw, node, at, s, d) = Collects-sound rest m i in (raw, node, inr at, s, d)
Collects-sound {uid = uid} {names = names} (take {raw = raw} n l k p r e made rest) m (inl i) = (
  raw,
  n,
  inl refl,
  record { server = p; labels = l; read = r; labelled = e },
  subst (λ (x : Member). Describes x n) (sym i) (member_of-Describes uid names n l made),
)
