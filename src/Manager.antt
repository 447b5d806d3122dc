-- ===== src/Manager.antt =====
-- main.go: the controllers' registration, what each watches, and the exit code.
pub mod ExitCode
pub mod Order
pub mod Permissions
pub mod Rbac
pub mod Runs
pub mod Scheme
pub mod Watches
pub mod Workloads
use vitastor_operator.Prelude.{
  ℕ, String, Bool, false, ◌⊎◌, inl, inr, nat_eq, if◌then◌else◌, List, [], ◌∷◌, ◌++◌, Option, none,
  some,
}
use vitastor_operator.Types.{Kind}
use vitastor_operator.Types.Metadata.{
  vitastor_cluster, vitastor_node, vitastor_osd, vitastor_pool, deployment, daemon_set,
  stateful_set, storage_class,
}
use vitastor_operator.Flow.{Error}

-- The values of the command line's flags.
pub record Flags : Type 0 where
  pub metrics_addr : String
  pub probe_addr : String
  pub enable_leader_election : Bool

abbrev pub default_flags : Flags
default_flags = record {
  metrics_addr = ":8080";
  probe_addr = ":8081";
  enable_leader_election = false;
}

-- ctrl.Options, less the scheme.
pub record Options : Type 0 where
  pub metrics_bind_address : String
  pub port : ℕ
  pub health_probe_bind_address : String
  pub leader_election : Bool
  pub leader_election_id : String

abbrev pub options : Flags → Options
options flags = record {
  metrics_bind_address = flags.metrics_addr;
  port = 9443;
  health_probe_bind_address = flags.probe_addr;
  leader_election = flags.enable_leader_election;
  leader_election_id = "ff08a114.vitastor.io";
}

-- The steps of the program that can fail. An index is of a type's objects, by a field.
pub data Setup : Type 0 where
  add_client_go_types add_control_types : Setup
  get_config : Setup
  new_manager : Options → Setup
  index_field : String → String → Setup
  complete : Kind → Setup
  add_healthz_check add_readyz_check : Setup
  start : Setup

-- `SetupWithManager` of the controller for a kind: it returns the first error, and `main` exits
-- then.
unfoldable pub setup_with_manager : Kind → List Setup
setup_with_manager vitastor_node =
    index_field "VitastorOSD" ".spec.nodeName"
    ∷ index_field "Pod" ".spec.node"
    ∷ complete vitastor_node
    ∷ []
setup_with_manager kind = complete kind ∷ []

-- `init`: the scheme's types. A failure panics.
abbrev pub inits : List Setup
inits = add_client_go_types ∷ add_control_types ∷ []

abbrev pub setups : Flags → List Setup
setups flags =
    get_config
    ∷ new_manager (options flags)
    ∷ (setup_with_manager vitastor_node
        ++ setup_with_manager vitastor_osd
        ++ setup_with_manager vitastor_cluster
        ++ setup_with_manager vitastor_pool
        ++ add_healthz_check ∷ add_readyz_check ∷ start ∷ [])

-- A program that panics exits with 2.
abbrev exit_code : Setup → ℕ
exit_code add_client_go_types = 2
exit_code add_control_types = 2
exit_code _ = 1

-- The exit code, and the steps that were made.
pub record Exit : Type 0 where
  pub code : ℕ
  pub made : List Setup

-- `if err := step; err != nil { os.Exit(1) }`, step by step; after the last the program ends.
unfoldable pub run : (Setup → Option Error) → List Setup → Exit
run fails [] = record { code = 0; made = [] }
run fails (step ∷ steps) =
    let rest = run fails steps in
    elim (fails step) [
      | some e ↦ record { code = exit_code step; made = step ∷ [] }
      | none ↦ record { code = rest.code; made = step ∷ rest.made }
    ]

-- `flag.Parse` gives the flags' values, or ends the program with a code of its own.
abbrev parsed : (Setup → Option Error) → List Setup → Flags ⊎ ℕ → Exit
parsed fails made (inl flags) =
    let rest = run fails (setups flags) in record { code = rest.code; made = made ++ rest.made }
parsed fails made (inr code) = record { code = code; made = made }

-- `init`, and then `main`.
unfoldable pub main : (Setup → Option Error) → (Flags → Flags ⊎ ℕ) → Exit
main fails parse =
    let begun = run fails inits in
    let ended = parsed fails begun.made (parse default_flags) in
    if nat_eq begun.code 0 then ended else begun

-- `Owns(…)` of the controllers: a change of such an object runs the controller of its owner.
abbrev cluster_owns : List Kind
cluster_owns = vitastor_node ∷ daemon_set ∷ deployment ∷ []

abbrev node_owns : List Kind
node_owns = vitastor_osd ∷ []

abbrev osd_owns : List Kind
osd_owns = stateful_set ∷ []

abbrev pool_owns : List Kind
pool_owns = storage_class ∷ []

-- What the controller for a kind owns.
unfoldable pub owns : Kind → List Kind
owns vitastor_cluster = cluster_owns
owns vitastor_node = node_owns
owns vitastor_osd = osd_owns
owns vitastor_pool = pool_owns
owns _ = []
