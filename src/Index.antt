-- ===== src/Index.antt =====
-- The index functions that VitastorNodeReconciler.SetupWithManager registers
-- (controllers/vitastornode_controller.go), by which the two List calls select.
use vitastor_operator.Prelude.{String, List, [], ◌∷◌}
use vitastor_operator.Types.{VitastorOsd, Pod}

-- The field ".spec.nodeName" of an OSD, and the field ".spec.node" of a pod.
abbrev pub osd_index : VitastorOsd → List String
osd_index osd = osd.spec.node_name ∷ []

abbrev pub pod_index : Pod → List String
pod_index agent = agent.node_name ∷ []
