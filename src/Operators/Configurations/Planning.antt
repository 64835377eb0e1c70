-- ===== src/Operators/Configurations/Planning.antt =====
-- source_commit, plan and prerequisite_inputs of operators/configurations.py: the public inputs of
-- a Configuration and their revision, resolved anew for each of its prerequisites.
use ansible_roles.Prelude.{
  ℕ, zero, suc, ◌<>◌, String, Bool, true, false, not, ◌&&◌, ◌||◌, Option, none, some, List, [], ◌∷◌,
  ◌++◌, map, all, leb, length, member, ◌==◌, nat_eq, string_eq, if◌then◌else◌,
}
use ansible_roles.Text.{codes}
use ansible_roles.Result
use ansible_roles.Result.{Error, Result, ok, err, operator_error, recursion_error, map_result}
use ansible_roles.Json.{
  Json, null, str, obj, end, Dict, object, array, get, get_or, lookup, insert, truthy, eqb,
}
use ansible_roles.Operators.Effects.{
  Call, Log, Outside, Exec, pure, raise, lift, catch, given, ◌>>=◌, ◌>>◌, refuse_if, request,
}
use ansible_roles.Operators.Resource.{Resource, json_object, json_string}
use ansible_roles.Operators.Common.{is_terminating, generation, generation_or_zero}
use ansible_roles.Operators.Configurations.{
  mapping, reference, dependencies, command_argv, fetch_reference,
}
use ansible_roles.Operators.Configurations.Targets.{
  Targets, resolve_targets, member_inputs, observed_reference,
}

-- class Plan: the resolved public inputs.
pub record Plan : Type 0 where
  pub configuration : Resource
  pub target : Resource
  pub servers : List Resource
  pub hosts : Dict
  pub input_revision : String
  pub source_revision : String
  pub resolved_references : List Json
  pub inventory : Dict
  pub kube_cluster : Option Resource

-- What surrounds a run: the outside, the depth at which the interpreter raises RecursionError, the
-- SHA-256 of a value's JSON text, and BUILD_URL of the environment.
pub record Runner : Type 0 where
  pub outside : Outside
  pub depth : ℕ
  pub digest : Json → String
  pub build_url : String

-- `re.fullmatch('[0-9a-f]{40}', commit)`
unfoldable pub is_commit : String → Bool
is_commit commit =
    (length (codes commit) == 40)
    && all (λ c. leb 48 c && leb c 57 || leb 97 c && leb c 102) (codes commit)

-- The candidates for `git rev-parse`: the pinned commit, or the places where a ref may stand.
unfoldable pub candidates : Dict → Dict → Result (List String)
candidates repository source_spec = elim (eqb (get source_spec "revision") null) [
  | true ↦ Result.◌>>=◌ (json_string (get_or repository "ref" (str "main")) "repository ref") λ ref.
      ok (("refs/remotes/origin/" <> ref) ∷ ("refs/heads/" <> ref) ∷ ("refs/tags/" <> ref) ∷ [])
  | false ↦ Result.◌>>=◌ (json_string (get source_spec "revision") "source revision") λ commit.
      if is_commit commit
      then ok (commit ∷ [])
      else err (operator_error "SourceMismatch" "Revision must be a full immutable commit")
]

-- The reasons for which a prerequisite only waits.
unfoldable pub waits : List String
waits =
    "Suspended" ∷ "TargetPending" ∷ "InventoryPending" ∷ "DependencyPending" ∷ "ReferenceMissing"
    ∷ []

unfoldable pub prerequisite_error : Error → Error
prerequisite_error (operator_error reason message) =
    if member reason waits
    then operator_error "DependencyPending" "Prerequisite is unavailable or suspended"
    else operator_error reason message
prerequisite_error e = e

-- The prerequisite's last verification was of its current generation and inputs.
unfoldable pub is_verified : Resource → Plan → Bool
is_verified dependency resolved =
    eqb (get dependency.status "phase") (str "Ready")
    && eqb (get dependency.status "observedGeneration") (generation dependency)
    && eqb (get dependency.status "inputRevision") (str resolved.input_revision)

unfoldable pub cluster_input : Option Resource → Dict
cluster_input none = []
cluster_input (some cluster) =
    (
      "kubernetesContext",
      object (("uid", str cluster.metadata.uid) ∷ ("spec", object cluster.spec) ∷ []),
    )
    ∷ []

unfoldable pub cluster_references : Option Resource → List Json
cluster_references none = []
cluster_references (some cluster) = observed_reference cluster ∷ []

-- `inputs`, whose digest is the revision.
unfoldable pub plan_inputs :
    Resource → Targets → Resource → String → Dict → List Json → List Json → Option Resource → Json
plan_inputs configuration selected repository commit prerequisites members references cluster =
    object (
      (("spec", object configuration.spec)
        ∷ ("targetUID", str selected.target.metadata.uid)
        ∷ ("targetGeneration", generation_or_zero selected.target)
        ∷ ("targetSpec", object selected.target.spec)
        ∷ ("groupUID", str selected.group.metadata.uid)
        ∷ ("groupGeneration", generation_or_zero selected.group)
        ∷ ("repositorySpec", object repository.spec)
        ∷ ("sourceRevision", str commit)
        ∷ ("inventory", object selected.inventory)
        ∷ ("dependencies", object prerequisites)
        ∷ ("members", array members)
        ∷ ("resolvedReferences", array references)
        ∷ ("hosts", object selected.hosts)
        ∷ [])
      ++ cluster_input cluster)

-- `rev-parse` answers with the commit, or with null where it fails.
unfoldable pub parsed_commit : Json → Option String
parsed_commit (str commit) = some commit
parsed_commit _ = none

-- `'kubeClusterRef' in context`
unfoldable pub cluster_reference : Dict → Result (Option Dict)
cluster_reference context = elim (lookup "kubeClusterRef" context) [
  | none ↦ ok none
  | some v ↦ Result.◌>>=◌ (reference context "kubeClusterRef") λ ref. ok (some ref)
]

module _ (outside : Outside) where
  unfoldable pub first_commit : List String → Exec Log String
  first_commit [] =
      raise (
        operator_error "SourceUnavailable"
          "Requested commit/ref is missing from pipeline Git input")
  first_commit (candidate ∷ more) = do
    v ← request outside (Call.other "git rev-parse" (str (candidate <> "^{commit}")))
    given (parsed_commit v) (first_commit more) (λ commit. pure commit)

  unfoldable pub source_commit : Resource → Dict → Exec Log String
  source_commit repository source_spec = do
    origin ← request outside (Call.other "git remote get-url" (str "origin"))
    refuse_if (not (eqb origin (get repository.spec "url")))
        (operator_error "SourceMismatch" "Source repository differs from pipeline code input")
    names ← lift (candidates repository.spec source_spec)
    first_commit names

  unfoldable pub fetch_each : String → List Dict → Exec Log (List Resource)
  fetch_each collection [] = pure []
  fetch_each collection (ref ∷ refs) = do
    value ← fetch_reference outside collection ref
    values ← fetch_each collection refs
    pure (value ∷ values)

  unfoldable pub context_cluster : Dict → Exec Log (Option Resource)
  context_cluster context = do
    reference ← lift (cluster_reference context)
    given reference (pure none)
        (λ ref. fetch_reference outside "kube-clusters" ref >>= λ cluster. pure (some cluster))

  -- The loop of prerequisite_inputs; `resolve` plans one prerequisite.
  unfoldable pub prerequisite_rounds : (Resource → Exec Log Plan) → List Dict → Dict → Exec Log Dict
  prerequisite_rounds resolve [] revisions = pure revisions
  prerequisite_rounds resolve (ref ∷ refs) revisions = do
    dependency ← fetch_reference outside "configurations" ref
    resolved ← catch (resolve dependency) (λ e. raise (prerequisite_error e))
    refuse_if (not (is_verified dependency resolved))
        (operator_error "DependencyPending" "Prerequisite is not verified against current inputs")
    prerequisite_rounds resolve refs
        (insert dependency.metadata.uid (str resolved.input_revision) revisions)

  unfoldable pub prerequisite_inputs : (Resource → Exec Log Plan) → Resource → Exec Log Dict
  prerequisite_inputs resolve configuration = do
    refs ← lift (dependencies configuration)
    prerequisite_rounds resolve refs []

module _ (runner : Runner) where
  -- plan, once its guards have passed; `resolve` is its recursive call.
  unfoldable pub plan_inside : (Resource → Exec Log Plan) → Resource → Exec Log Plan
  plan_inside resolve configuration = do
    selected ← resolve_targets runner.outside configuration
    argv ← lift (command_argv configuration)
    source_spec ← lift (mapping configuration.spec "source")
    repository_ref ← lift (reference source_spec "repositoryRef")
    repository ← fetch_reference runner.outside "git-repositories" repository_ref
    commit ← source_commit runner.outside repository source_spec
    context ← lift (json_object (get_or configuration.spec "context" (obj end)) "execution context")
    cluster ← context_cluster runner.outside context
    refs ← lift (dependencies configuration)
    fetched ← fetch_each runner.outside "configurations" refs
    let references =
        map observed_reference (selected.target ∷ selected.group ∷ repository ∷ selected.servers)
        ++ (cluster_references cluster ++ map observed_reference fetched)
    prerequisites ← prerequisite_inputs runner.outside resolve configuration
    members ← lift (map_result member_inputs selected.servers)
    pure (record {
      configuration = configuration;
      target = selected.target;
      servers = selected.servers;
      hosts = selected.hosts;
      input_revision =
          "sha256:"
          <> runner.digest (
              plan_inputs configuration selected repository commit prerequisites members references
                cluster);
      source_revision = commit;
      resolved_references = references;
      inventory = selected.inventory;
      kube_cluster = cluster;
    })

  -- plan, with a bound on the depth of its calls.
  unfoldable pub plan_depth : ℕ → Resource → List String → Exec Log Plan
  plan_depth zero configuration stack = raise recursion_error
  plan_depth (suc n) configuration stack = do
    refuse_if (member configuration.metadata.name stack)
        (operator_error "DependencyCycle" "Configuration dependency cycle")
    refuse_if (truthy (get configuration.spec "suspended") || is_terminating configuration)
        (operator_error "Suspended" "Configuration is suspended or terminating")
    plan_inside (λ dependency. plan_depth n dependency (configuration.metadata.name ∷ stack))
        configuration

  unfoldable pub plan : Resource → Exec Log Plan
  plan configuration = plan_depth runner.depth configuration []
