-- ===== src/Cluster/Settles.antt =====
-- The whole `Reconcile` of the cluster, run after run.
use vitastor_operator.Prelude.{
  ℕ, zero, suc, ◌≤◌, String, ◌<>◌, ◌≡◌, ap, ◌∙◌, true, List, [], ◌∷◌, none, arith,
}
use vitastor_operator.Types.{VitastorCluster}
use vitastor_operator.Flow.{
  Event, file_opened, file_closed, etcd_dialled, etcd_put, etcd_closed, ok, exit, no_requeue, ◌>>=◌,
}
use vitastor_operator.Api.{Api, VitastorConfig}
use vitastor_operator.Api.Laws.{is_ok, cluster_scoped}
use vitastor_operator.Config.Connected.{Connection, config_file, met, met_keeps, connected}
use vitastor_operator.Cluster.{
  placement_levels, put_placement_levels, reconcile_cluster, reconcile_named, reconcile,
}
use vitastor_operator.Cluster.Held.{ClusterStore, Valid, sync}
use vitastor_operator.Cluster.Runs.{cluster_reconciled}
use vitastor_operator.Cluster.UpToDate.{UpToDate, Reached, Reached-suc, Reached-Valid}
use vitastor_operator.Cluster.Quiet.{cluster_quiet}

-- The cluster's object is there, and etcd takes the placement levels; neither changes what is held.
pub record Levels {W : Type 0} (api : Api W) (cluster : VitastorCluster) (config : VitastorConfig)
    (store : ClusterStore api cluster) : Type 0 where
  pub text : String
  pub encodes : api.codec.encode_levels placement_levels ≡ ok text
  pub put_ok :
      (w : W)
      → is_ok (api.etcd.put (config.vitastor_prefix <> "/config/placement_levels") text w).0 ≡ true
  pub put_keeps :
      (w : W)
      → store.held (api.etcd.put (config.vitastor_prefix <> "/config/placement_levels") text w).1
        ≡ store.held w
  pub gets_cluster :
      (w : W) → (api.kube.get_cluster (cluster_scoped cluster.meta.name) w).0 ≡ ok cluster
  pub get_cluster_keeps :
      (w : W)
      → store.held (api.kube.get_cluster (cluster_scoped cluster.meta.name) w).1 ≡ store.held w

module _ {W : Type 0} (api : Api W) (cluster : VitastorCluster) (config : VitastorConfig)
    (store : ClusterStore api cluster) (levels : Levels api cluster config store)
    (c : Connection api config store.held) where
  abbrev path : String
  path = config.vitastor_prefix <> "/config/placement_levels"

  -- The world in which the checks begin.
  abbrev begun : W → W
  begun w =
      (api.kube.get_cluster (cluster_scoped cluster.meta.name)
        (api.etcd.put path levels.text (met api config store.held c w)).1).1

  begun_keeps : (w : W) → store.held (begun w) ≡ store.held w
  begun_keeps w =
      let v = met api config store.held c w in
      levels.get_cluster_keeps (api.etcd.put path levels.text v).1
      ∙ levels.put_keeps v
      ∙ met_keeps api config store.held c w

  whole_world :
      (w : W)
      → (reconcile api cluster.meta.name w).world ≡ (reconcile_cluster api cluster (begun w)).world
  unfolding reconcile reconcile_named put_placement_levels ◌>>=◌
  whole_world w =
      let v = met api config store.held c w in
      rw (connected api config store.held c (reconcile_named api cluster.meta.name) w) (
        ground (
          arith,
          levels.encodes,
          levels.put_ok v,
          levels.gets_cluster (api.etcd.put path levels.text v).1,
        ))

  -- The calls of a run that finds all up to date.
  abbrev pub upkeep : List Event
  upkeep =
      file_opened config_file
      ∷ file_closed config_file
      ∷ etcd_dialled
      ∷ etcd_put path levels.text
      ∷ etcd_closed
      ∷ []

  whole_quiet :
      (w : W)
      → UpToDate cluster store.agents (store.held w)
      → ((reconcile api cluster.meta.name w).flow
          ≡ exit (record { result = no_requeue; error = none }))
        × ((reconcile api cluster.meta.name w).events ≡ upkeep)
  unfolding reconcile reconcile_named put_placement_levels ◌>>=◌
  whole_quiet w u =
      let v = met api config store.held c w in
      let (f, q) = cluster_quiet api cluster store (begun w) (rw (begun_keeps w) u) in
      rw (connected api config store.held c (reconcile_named api cluster.meta.name) w) (
        ground (
          arith,
          levels.encodes,
          levels.put_ok v,
          levels.gets_cluster (api.etcd.put path levels.text v).1,
          f,
          q,
        ))

  -- The world after so many runs.
  unfoldable pub runs : ℕ → W → W
  runs zero w = w
  runs (suc n) w = (reconcile api cluster.meta.name (runs n w)).world

  runs-Reached :
      (n : ℕ) (w : W)
      → Valid (store.held w)
      → Reached api cluster store.owned store.agents n (store.held (runs n w))
  unfolding runs
  runs-Reached zero w h = h
  runs-Reached (suc n) w h =
      let v = runs n w in
      let r = runs-Reached n w h in
      let k = begun_keeps v in
      let e =
        cluster_reconciled api cluster store (begun v)
          (rw k (Reached-Valid api cluster store.owned store.agents n _ r)) in
      rw (ap store.held (whole_world v) ∙ e ∙ ap (sync api cluster store.owned store.agents) k)
        (Reached-suc api cluster store.owned store.agents n _ r)

  settled :
      (n : ℕ) (w : W)
      → 3 ≤ n
      → Valid (store.held w)
      → UpToDate cluster store.agents (store.held (runs n w))
  settled zero w l h = absurd (omega arith)
  settled (suc zero) w l h = absurd (omega arith)
  settled (suc (suc zero)) w l h = absurd (omega arith)
  settled (suc (suc (suc n))) w l h = runs-Reached (suc (suc (suc n))) w h

  -- From the third run on, the monitor's deployment has the specification's image and number of
  -- replicas, the agents' daemon set the agent's image, and every node that runs an agent has an
  -- object; and a further run ends without an error, asks for no other run, and calls nothing but
  -- what it calls each time: it opens and closes the configuration and the client of etcd, and puts
  -- the placement levels. Whatever the server holds at first, its deployment, if any, is to have a
  -- container and a number of replicas and its daemon set a container; the configuration and the
  -- cluster's object are to be there, etcd is to take the placement levels, the server is to answer every
  -- get and list and to accept every creation of a missing object under its key and every update of one
  -- that it holds, setting the cluster as an owner is to be possible and to change no object's key,
  -- nobody else is to write to the server, and the same nodes are to run agents.
  pub cluster_settles :
      (n : ℕ) (w : W)
      → 3 ≤ n
      → Valid (store.held w)
      → UpToDate cluster store.agents (store.held (runs n w))
        × ((reconcile api cluster.meta.name (runs n w)).flow
            ≡ exit (record { result = no_requeue; error = none }))
        × ((reconcile api cluster.meta.name (runs n w)).events ≡ upkeep)
  cluster_settles n w l h =
      let u = settled n w l h in let (f, q) = whole_quiet (runs n w) u in (u, f, q)
