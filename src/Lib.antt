-- ===== src/Lib.antt =====
-- The Python of the homelab's Ansible repository: the filters that plan Kubernetes clusters
-- (filter_plugins/kube_plan.py) and the operators that provision servers, own operations, and run the
-- commands of Configurations through the resource API (operators/).
--
-- How the parts interact. Each filter is a pure function of JSON values that raises. An operator
-- is a bounded program: it calls the API and managed hosts, and raises. The model of a program is
-- a function from a state to a result and a state; the outside is any function from the log of all
-- calls so far and the next call to an answer, so another writer may change anything between two
-- calls. The API answers with JSON that the envelope reader accepts or refuses; patch_status carries
-- the UID and the resource version of what was read.
--
-- Files. Prelude, Result (exceptions as values), Json (Python's JSON values, `==` and truth), Text
-- (the text operations in use) and Ipv4 (ipaddress.IPv4Network) are what the other files share.
--   Kube            mapping, text, dns_name, ipv4_network of kube_plan.py
--   Kube/Members    selected_members: members, host options, the sorting
--   Kube/Settings   validated_settings, stable_identity
--   Kube/Plan       cluster_plan
--   Kube/HostNetwork  validate_host_network
--   Kube/Nodes      verify_nodes, validate_node, node_observations
--   Kube/Registration  members_by_name, desired_labels, registration_action, managed_label_patch
--   Kube/Artifacts  changed_binaries, installed_artifacts
--   Kube/Membership  membership_observation
--   Kube/Flannel    flannel_objects, configure_flannel_cni, use_direct_api_endpoint
--   Operators/Effects  calls, logs, programs; Keeps, Triple and Raises are the rules to reason on them
--   Operators/Resource  operators/models.py
--   Operators/Api   class API of operators/common.py
--   Operators/Common  host keys, SSH options and inventories of operators/common.py
--   Operators/Trust  operators/runner_trust.py
--   Operators/Context  operators/runner_kubernetes.py; Client has install_kubectl and setup_context
--   Operators/Operation  operators/server_operation.py
--   Operators/HostKeys  operators/ssh_host_keys.py; Pass has reconcile and its steps
--   Operators/Configurations  operators/configurations.py: Order has dependency_order; Targets
--     resolve_targets; Planning source_commit, prerequisite_inputs and plan; Reports report and what
--     is published; Commands run_commands; Workspace checkout and prepare_execution; Execution
--     execute and main.
--   Operators/Provisioning  operators/provisioning.py: the bound view and its checks; Bound has
--     bind_run, current, checkpoint, release_run; Disk the disk and storage checks; Stages run_stage
--     and prepare_boot; Session await_session,
--     drain_commands and verify_installed; Pass reconcile and its steps;
--     Pass/Failure handle_failure.
-- Proofs stand in the files below their definitions' (Laws, Selected, Verified, Pointer, Guards,
-- Outcome, Completes, Inspected, Revoked, Guarded, Storage, Agreement; of Configurations:
-- Order/Laid, Order/Total, Order/Cycles, Argv, Quiet, Trace, Published, Errors); runs and examples in Kube/Tests, Kube/Runs,
-- Operators/Tests, Operators/HostKeys/Runs and Operators/Configurations/Runs.
--
-- Bounds. The retry loops of complete_operation, checkpoint and release_run have the source's five
-- rounds. await_session has 121 rounds: each round that does not end the wait sleeps five seconds
-- of its 600, so the source begins no later one; the 61 of drain_commands
-- are enough for its 300 seconds alike. `visit` of dependency_order recurses on a depth of one more
-- than there are names, which is never reached (Order/Total). `plan` of a Configuration plans its
-- prerequisites through names that the API may change at each call, so the source has no bound but
-- the interpreter's: its depth is a parameter, and beyond it the model raises RecursionError as
-- Python does. publish_target_status has five attempts. All other loops recurse on a list.
--
-- Not modelled. Of kube_plan.py the probe objects; json's codec and SHA-256 are parameters
-- (Codec). Of provisioning.py the plan of a run with its user keys and settings, artifact
-- requests, ssh and key files are calls of the outside, and main and run_stage's
-- boot arguments are left out. Messages leave out interpolated values where the code only reports them. Of
-- configurations.py the process environment that run_commands sets and restores; git, Ansible, SSH,
-- files, downloads and json.dumps with SHA-256 are calls or parameters (Runner, Tools, Crypto). The
-- main of the SSH host key operator, the system operations, the runners' credentials and the scripts
-- of roles are not modelled. Json has no floating-point numbers, so inputs with one are left out, and
-- so are failures of a run's known_hosts file where prepare_attempt, resume and disarm use it.
-- Python's str.lower,
-- ipaddress for addresses of both families and the key fingerprint are parameters (Library).
pub mod Prelude
pub mod Result
pub mod Json
pub mod Text
pub mod Ipv4
pub mod Kube
pub mod Operators
