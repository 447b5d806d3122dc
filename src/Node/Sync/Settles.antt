-- ===== src/Node/Sync/Settles.antt =====
-- Runs of the node's reconciler, one after the other.
use mathlib.Core.Path.{subst}
use mathlib.Core.List.{Permᴰ}
use vitastor_operator.Prelude.{
  ℕ, List, zero, suc, ◌<◌, String, ◌<>◌, ◌≡◌, none, arith, All, All-append, count,
}
use vitastor_operator.Prelude.Int.{ℤ}
use vitastor_operator.Types.{VitastorNode, VitastorOsd}
use vitastor_operator.Flow.{ok, exit}
use vitastor_operator.Api.{Api, VitastorConfig}
use vitastor_operator.Config.{env_or, parse_int}
use vitastor_operator.Config.Connected.{Connection, met, met_keeps, connected}
use vitastor_operator.Node.{requeue_in, reconcile_named, reconcile}
use vitastor_operator.Node.Osds.Prune.{is_outdated}
use vitastor_operator.Node.Sync.Store.{NodeStore, IsOf}
use vitastor_operator.Node.Sync.Runs.{path, IsAfter, NewNames, named_synced}
use vitastor_operator.Node.Sync.UpToDate.{
  paths, UpToDate, after-NewNames, after-IsOf, count-after, after-UpToDate,
}
use vitastor_operator.Node.Sync.Upkeep.{IsUpkeep}
use vitastor_operator.Node.Sync.Quiet.{node_quiet}

-- The world after a number of runs of the reconciler on the node.
module _ {W : Type 0} (api : Api W) (name : String) where
  unfoldable pub runs : ℕ → W → W
  runs zero w = w
  runs (suc n) w = runs n (reconcile api name w).world

module _ {W : Type 0} (api : Api W) (node : VitastorNode) (config : VitastorConfig)
    (store : NodeStore api node (config.vitastor_prefix <> "/config/node_placement"))
    (c : Connection api config store.held) (interval : ℤ)
    (i : parse_int (env_or api "UPDATE_INTERVAL" "15") ≡ ok interval)
    (named : node.spec.node_name ≡ node.meta.name) where
  -- A run of the node's reconciler does to the node's status and its OSD objects what `sync` tells of
  -- some order of the objects, and leaves them in any order: the agent's answers are noted, each OSD
  -- without an object gets one, and the outdated objects are deleted up to the first one in that order
  -- that gets the node's image. The configuration and a placement map are to be there, the node's labels to have
  -- a slash where they need one, its `spec.nodeName` to be its name, its agent to give the same answers
  -- at any time, etcd and the server to answer every get and list and to accept what is sent (an object
  -- that is created if the node has none of its name), nobody else is to write to them, and the objects
  -- that are there and those that a run creates are to have different names and the objects that are
  -- there to be of the node.
  pub node_reconciled :
      (w : W)
      → NewNames api node config store (store.held w)
      → All (IsOf node) (store.held w).osds
      → (items : List VitastorOsd) × Permᴰ items (store.held w).osds
        × IsAfter api node config store items
            (store.held w)
            (store.held (reconcile api node.meta.name w).world)
  unfolding reconcile
  node_reconciled w d of =
      let k = met_keeps api config store.held c w in
      let v = met api config store.held c w in
      rw (connected api config store.held c (reconcile_named api node.meta.name) w) (
        subst
          (λ x.
            (items : List VitastorOsd) × Permᴰ items x.osds
            × IsAfter api node config store items x
                (store.held (reconcile_named api node.meta.name config v).world))
          k (named_synced api node config store named interval v i (rw k d) (rw k of)))

  settled :
      (w : W)
      → UpToDate api node config store (store.held w)
      → ((reconcile api node.meta.name w).flow
          ≡ exit (record { result = requeue_in interval; error = none }))
        × All (IsUpkeep (path api node config store)) (reconcile api node.meta.name w).events
  unfolding reconcile
  settled w u =
      let v = met api config store.held c w in
      let (f, q) =
        node_quiet api node config store interval v i
          (rw (met_keeps api config store.held c w) u) in
      rw (connected api config store.held c (reconcile_named api node.meta.name) w)
        (f, (tt, (tt, (tt, All-append (IsUpkeep (path api node config store)) _ _ q (tt, tt)))))

  runs-UpToDate :
      (n : ℕ) (w : W)
      → NewNames api node config store (store.held w)
      → All (IsOf node) (store.held w).osds
      → count (is_outdated node (paths api node config store)) (store.held w).osds < n
      → UpToDate api node config store (store.held (runs api node.meta.name n w))
  unfolding runs
  runs-UpToDate zero w d of h = absurd (omega arith)
  runs-UpToDate (suc zero) w d of h =
      let (items, order, after) = node_reconciled w d of in
      after-UpToDate api node config store named (store.held w) _ items order after (omega arith)
  runs-UpToDate (suc (suc n)) w d of h =
      let (items, order, after) = node_reconciled w d of in
      runs-UpToDate (suc n) (reconcile api node.meta.name w).world
        (after-NewNames api node config store named (store.held w) _ items order after d)
        (after-IsOf api node config store named (store.held w) _ items order after of)
        (omega (arith, count-after api node config store named (store.held w) _ items order after))

  -- Each run leaves objects of the node.
  pub runs-IsOf :
      (n : ℕ) (w : W)
      → NewNames api node config store (store.held w)
      → All (IsOf node) (store.held w).osds
      → All (IsOf node) (store.held (runs api node.meta.name n w)).osds
  unfolding runs
  runs-IsOf zero w d of = of
  runs-IsOf (suc n) w d of =
      let (items, order, after) = node_reconciled w d of in
      runs-IsOf n (reconcile api node.meta.name w).world
        (after-NewNames api node config store named (store.held w) _ items order after d)
        (after-IsOf api node config store named (store.held w) _ items order after of)

  pub node_settles :
      (n : ℕ) (w : W)
      → NewNames api node config store (store.held w)
      → All (IsOf node) (store.held w).osds
      → count (is_outdated node (paths api node config store)) (store.held w).osds < n
      → UpToDate api node config store (store.held (runs api node.meta.name n w))
        × ((reconcile api node.meta.name (runs api node.meta.name n w)).flow
            ≡ exit (record { result = requeue_in interval; error = none }))
        × All
            (IsUpkeep (path api node config store))
            (reconcile api node.meta.name (runs api node.meta.name n w)).events
  node_settles n w d of h =
      let u = runs-UpToDate n w d of h in
      let (f, q) = settled (runs api node.meta.name n w) u in (u, f, q)
