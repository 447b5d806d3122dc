-- ===== src/Lib.antt =====
-- The verification library of vitastor-operator, a Kubernetes operator that runs the Vitastor storage
-- cluster.
--
-- The program. `main.go` registers four controllers. Each has a `Reconcile` that reads the objects
-- that it needs through the Kubernetes client, compares them with a custom resource and writes what
-- differs; a run ends with an error, with a request for another run, or with neither. The cluster's
-- reconciler keeps the monitor's deployment and the agents' daemon set, and creates a VitastorNode
-- for each node that runs an agent. The node's reconciler keeps the node's entry in the placement
-- tree in etcd, asks the agent over HTTP for the node's disks, creates a VitastorOSD for each OSD that
-- was found, deletes the others and rolls out new images one at a time. The OSD's reconciler keeps a
-- stateful set for each OSD, and the pool's the pool's entry in etcd and its storage class. A change
-- of an object that a controller owns runs the reconciler of the object's owner again.
--
-- The files.
--   Types      the custom resources (api/v1/*_types.go) and the Kubernetes kinds, with the fields that
--              the controllers set or read
--   Api        the code outside the repository, as parameters; Api.Laws states what some theorems
--              assume of it, and Api.Memory is an instance that meets these assumptions, those on
--              workloads apart, for which Tests.Served has one
--   Flow       how a `Reconcile` runs: an action takes the world and returns its outcome (go on,
--              return, panic), the next world and the calls that it made, in order
--   Config     `loadConfiguration`, the environment and the etcd client with its deferred `Close`
--              (controllers/vitastornode_controller.go; the other controllers have the same code)
--   Cluster    controllers/vitastorcluster_controller.go
--   Node       controllers/vitastornode_controller.go: Node.Placement is the loop over the labels,
--              Node.Agent the requests to the agent, Node.Observed when the status is written,
--              Node.Osds the two loops over the OSDs (Node.Osds.Moved: what their order does not
--              matter for), and Node.Sync what whole runs do to the node's status and objects;
--              Node.Overtaken is about a write by another process between two calls to etcd
--   Osd        controllers/vitastorosd_controller.go
--   Pool       controllers/vitastorpool_controller.go
--   Index      the index functions of `SetupWithManager`
--   Manager    main.go and `SetupWithManager` of each controller: the flags, the steps of the start,
--              what is watched, and in Manager.Scheme the registration of the types (`init` of main.go
--              and of api/v1, api/v1/groupversion_info.go); Manager.Rbac the `+kubebuilder:rbac`
--              markers; Manager.Runs and Manager.Order are about the runs of all the reconcilers
--   DeepCopy   api/v1/zz_generated.deepcopy.go: a memory of arrays, the copies of the structs, and of
--              the lists of objects
--   Go         what the code uses of strings, strconv and maps
--   Tests      the theorems at concrete inputs
-- A `Reconcile` is cut into one function for each block of it. A block that may end the run is an
-- action; `if err != nil { return … }` is `or_fail`, or `or_skip` where the code drops a "not found";
-- an index out of range, a nil pointer and a write to a nil map are panics.
--
-- Parameters and assumptions. The Kubernetes API, etcd, HTTP, the file system, the environment,
-- encoding/json, SetControllerReference and cmp.Equal are fields of `Api`, over a type of worlds:
-- any other process may change the world between two calls. Where a theorem needs more it takes one
-- of the laws of Api.Laws: an update that succeeds returns the deployment that was sent, setting an
-- owner does not rename an object, the server holds nodes by name and a get of one that it does not
-- hold fails in no other way than "not found", the codec gives back the entries
-- of a map, a list by an index returns what the index selects, the server accepts every update and
-- deletion of an OSD, setting an owner does not panic, or the workloads that it answers have a
-- container and a number of replicas. What is assumed for one theorem is next to it: the node's
-- OSDs that nobody else writes to (OsdStore, in Node.Osds.Rollout, with distinct names), the
-- cluster's objects, an OSD's stateful set, the pools with a storage class, and the placement map,
-- likewise (ClusterStore in Cluster.Held, NodeStore in Node.Sync.Store for whole runs on a node,
-- SetStore in Osd.Settles, PoolStore in Pool.Held, PlacementStore in Node.Osds.Placed, MapStore in
-- Node.Overtaken), a configuration and an etcd that are there (Connection in Config.Connected, Levels
-- in Cluster.Settles), the placement map and the labels that a run of the node does
-- not panic on (Node.Safety), the pools that etcd holds (Pool.Safety), and a scheme that knows what
-- was added to it (Manager.Scheme). In DeepCopy the copy of the metadata is a function that is to
-- give an equal value.
-- A created object is held only under the key, or with the node name, that the reconciler asks for
-- it by; a list of the node's objects comes in any order, and in another one each time.
--
-- Numbers. A Go int is an integer; `int32` and `int64` wrap around where the code converts or
-- multiplies. A duration is in nanoseconds. Every loop ranges over a list, so it is structural
-- recursion, and no fuel is used; `itoa` divides, by recursion on the order of the numbers.
--
-- Go ranges over a map in an order of its own; the labels of a node are a list in the order of that
-- run, in any order.
--
-- Not modelled: logging (but a log entry that reads a nil object is a panic), contexts and
-- timeouts, the logger's flags, slices of a part of an array (the copies meet none), the agent's
-- service (agent/vitastor-agent.py), and the YAML and build files. Fields of Kubernetes objects
-- that the controllers neither set nor read are left out.
pub mod Prelude
pub mod Go
pub mod Types
pub mod Flow
pub mod Index
pub mod Api
pub mod Config
pub mod Cluster
pub mod Osd
pub mod Pool
pub mod Node
pub mod DeepCopy
pub mod Manager
pub mod Tests
