-- ===== src/Manager/Rbac.antt =====
-- The `+kubebuilder:rbac` markers of the controllers, from which the operator's role is generated.
use vitastor_operator.Prelude.{String, Bool, ◌&&◌, List, [], ◌∷◌, any, ◌==◌}
use vitastor_operator.Types.{Kind}
use vitastor_operator.Types.Metadata.{
  vitastor_cluster, vitastor_node, vitastor_osd, vitastor_pool, deployment, daemon_set,
  stateful_set, storage_class,
}

pub record Rule : Type 0 where
  pub group : String
  pub resource : String
  pub verbs : List String

abbrev every_verb : List String
every_verb = "get" ∷ "list" ∷ "watch" ∷ "create" ∷ "update" ∷ "patch" ∷ "delete" ∷ []

abbrev control : String → List String → Rule
control resource verbs = record {
  group = "control.vitastor.io";
  resource = resource;
  verbs = verbs;
}

abbrev apps : String → List String → Rule
apps resource verbs = record { group = "apps"; resource = resource; verbs = verbs }

abbrev v1 : String → List String → Rule
v1 resource verbs = record { group = "v1"; resource = resource; verbs = verbs }

abbrev status_verbs : List String
status_verbs = "get" ∷ "update" ∷ "patch" ∷ []

abbrev pub cluster_rules : List Rule
cluster_rules =
    control "vitastorclusters" every_verb
    ∷ control "vitastorclusters/status" status_verbs
    ∷ control "vitastorclusters/finalizers" ("update" ∷ [])
    ∷ control "vitastornodes" every_verb
    ∷ control "vitastornodes/finalizers" ("update" ∷ [])
    ∷ apps "daemonsets" every_verb
    ∷ apps "daemonsets/status" ("get" ∷ [])
    ∷ apps "deployments" every_verb
    ∷ apps "deployments/status" ("get" ∷ [])
    ∷ v1 "configmaps" ("get" ∷ "list" ∷ [])
    ∷ []

abbrev pub node_rules : List Rule
node_rules =
    control "vitastornodes" every_verb
    ∷ control "vitastornodes/status" status_verbs
    ∷ control "vitastornodes/finalizers" ("update" ∷ [])
    ∷ control "vitastorosds" every_verb
    ∷ v1 "pods" ("get" ∷ "list" ∷ "watch" ∷ [])
    ∷ []

abbrev pub osd_rules : List Rule
osd_rules =
    control "vitastorosds" every_verb
    ∷ control "vitastorosds/status" status_verbs
    ∷ control "vitastorosds/finalizers" ("update" ∷ [])
    ∷ apps "statefulsets" every_verb
    ∷ apps "statefulsets/status" ("get" ∷ [])
    ∷ v1 "configmaps" ("get" ∷ "list" ∷ [])
    ∷ []

abbrev pub pool_rules : List Rule
pool_rules =
    control "vitastorpools" every_verb
    ∷ control "vitastorpools/status" status_verbs
    ∷ control "vitastorpools/finalizers" ("update" ∷ [])
    ∷ record { group = "storage.k8s.io"; resource = "storageclasses"; verbs = every_verb }
    ∷ []

-- The rules of the controller for a kind.
unfoldable pub rules_of : Kind → List Rule
rules_of vitastor_cluster = cluster_rules
rules_of vitastor_node = node_rules
rules_of vitastor_osd = osd_rules
rules_of vitastor_pool = pool_rules
rules_of _ = []

-- How Kubernetes reads a role: some rule has the group, the resource and the verb.
unfoldable pub grants : List Rule → String → String → String → Bool
grants rules group resource verb =
    any (λ r. r.group == group && r.resource == resource && any (λ v. v == verb) r.verbs) rules

-- The group and the resource of a kind.
abbrev pub group_of : Kind → String
group_of deployment = "apps"
group_of daemon_set = "apps"
group_of stateful_set = "apps"
group_of storage_class = "storage.k8s.io"
group_of _ = "control.vitastor.io"

abbrev pub resource_of : Kind → String
resource_of vitastor_cluster = "vitastorclusters"
resource_of vitastor_node = "vitastornodes"
resource_of vitastor_osd = "vitastorosds"
resource_of vitastor_pool = "vitastorpools"
resource_of deployment = "deployments"
resource_of daemon_set = "daemonsets"
resource_of stateful_set = "statefulsets"
resource_of storage_class = "storageclasses"

-- The resource of a kind's status.
abbrev pub status_of : Kind → String
status_of vitastor_cluster = "vitastorclusters/status"
status_of vitastor_node = "vitastornodes/status"
status_of vitastor_osd = "vitastorosds/status"
status_of vitastor_pool = "vitastorpools/status"
status_of deployment = "deployments/status"
status_of daemon_set = "daemonsets/status"
status_of stateful_set = "statefulsets/status"
status_of storage_class = "storageclasses/status"
