-- ===== src/Node/Sync/Upkeep.antt =====
-- The calls that a run of the node's reconciler makes each time.
use vitastor_operator.Prelude.{
  String, ◌≡◌, refl, ap, ◌∙◌, true, List, [], ◌∷◌, arith, All, All-append,
}
use vitastor_operator.Prelude.Int.{ℤ}
use vitastor_operator.Types.{VitastorNode, VitastorOsd, KubeNode}
use vitastor_operator.Flow.{
  Flow, Ran, Event, etcd_put, file_opened, file_closed, etcd_dialled, etcd_closed, body_opened,
  body_closed, next, CtrlResult, Action, ◌>>=◌, for_each, pure,
}
use vitastor_operator.Flow.Rules.{>>=_of_next}
use vitastor_operator.Api.{Api}
use vitastor_operator.Node.{decode_placements, put_node_placement}
use vitastor_operator.Node.Agent.{fetch}
use vitastor_operator.Node.Osds.{place_osd, prune_osd}
use vitastor_operator.Node.Osds.Prune.{prune}
use vitastor_operator.Node.Osds.Swept.{is_settled}

-- A call that a run makes each time: the configuration and the client of etcd are opened and closed,
-- the placement map is put under its key, and the agent's answers are read.
abbrev pub IsUpkeep : String → Event → Type 0
IsUpkeep path (file_opened f) = Unit
IsUpkeep path (file_closed f) = Unit
IsUpkeep path etcd_dialled = Unit
IsUpkeep path etcd_closed = Unit
IsUpkeep path (etcd_put k v) = k ≡ path
IsUpkeep path (body_opened b) = Unit
IsUpkeep path (body_closed b) = Unit
IsUpkeep path _ = ⊥

module _ {W A B : Type 0} where
  pub bind-IsUpkeep :
      (path : String) (m : Action W A) (f : A → Action W B) (w : W) {a : A}
      → (m w).flow ≡ next a
      → All (IsUpkeep path) (m w).events
      → All (IsUpkeep path) (f a (m w).world).events
      → All (IsUpkeep path) ((m >>= f) w).events
  bind-IsUpkeep path m f w e h k =
      rw (>>=_of_next m f w e) (All-append (IsUpkeep path) (m w).events _ h k)

  pub bind-flow :
      (m : Action W A) (f : A → Action W B) (w : W) {a : A}
      → (m w).flow ≡ next a
      → ((m >>= f) w).flow ≡ (f a (m w).world).flow
  bind-flow m f w e = ap (λ r. r.flow) (>>=_of_next m f w e)

module _ {W A : Type 0} where
  -- The action ends so, with calls of upkeep alone.
  abbrev pub Quiet : String → Flow A → Ran W A → Type 0
  Quiet path end r = (r.flow ≡ end) × All (IsUpkeep path) r.events

module _ {W A B : Type 0} where
  pub then-Quiet :
      (path : String) (m : Action W B) (f : B → Action W A) (w : W) {b : B} {end : Flow A}
      → (m w).flow ≡ next b
      → All (IsUpkeep path) (m w).events
      → Quiet path end (f b (m w).world)
      → Quiet path end ((m >>= f) w)
  then-Quiet path m f w e h (k, q) = (bind-flow m f w e ∙ k, bind-IsUpkeep path m f w e h q)

  -- A step without calls.
  pub step-Quiet :
      (path : String) (m : Action W B) (f : B → Action W A) (w : W) {b : B} {v : W} {end : Flow A}
      → m w ≡ record { flow = next b; world = v; events = [] }
      → Quiet path end (f b v)
      → Quiet path end ((m >>= f) w)
  unfolding ◌>>=◌
  step-Quiet path m f w e h = rw e h

module _ {W : Type 0} (api : Api W) (path : String) where
  pub placement-IsUpkeep :
      (node : VitastorNode) (k : KubeNode) (w : W)
      → All (IsUpkeep path) (put_node_placement api path node k w).events
  unfolding put_node_placement decode_placements ◌>>=◌
  placement-IsUpkeep node k w = ground arith

  pub osd-IsUpkeep :
      (node : VitastorNode) (n : ℤ) (w : W)
      → All (IsUpkeep path) (place_osd api path node n w).events
  unfolding place_osd ◌>>=◌
  osd-IsUpkeep node n w = ground arith

  pub fetch-IsUpkeep : (u : String) (w : W) → All (IsUpkeep path) (fetch api u w).events
  unfolding fetch ◌>>=◌
  fetch-IsUpkeep u w = ground arith

  -- Settled objects are passed over.
  pub prune_quiet :
      (later : CtrlResult) (node : VitastorNode) (paths : List String) (items : List VitastorOsd)
      (w : W)
      → All (λ osd. is_settled node paths osd ≡ true) items
      → prune api later node paths items w ≡ record { flow = next tt; world = w; events = [] }
  unfolding for_each prune_osd pure ◌>>=◌
  prune_quiet later node paths [] w h = refl
  prune_quiet later node paths (osd ∷ items) w h =
      ground (arith, prune_quiet later node paths items w h.1)
