-- ===== src/Cluster/Agent.antt =====
-- The agents' daemon set: what a run leaves it at.
use vitastor_operator.Prelude.{
  ◌*◌, String, ◌≡◌, refl, List, [], ◌∷◌, none, some, arith, eq_iff, eq_refl,
}
use vitastor_operator.Prelude.Int.{pos}
use vitastor_operator.Types.{VitastorCluster, DaemonSet, Meta, Kind}
use vitastor_operator.Types.Images.{image_of, with_image, with_image_same}
use vitastor_operator.Types.Object.{daemon_set}
use vitastor_operator.Flow.{
  ok, err, not_found, Event, created, updated, next, exit, Succeeded, no_requeue, minute, ◌>>=◌,
}
use vitastor_operator.Api.{Api, Reference, referred, refused, crashed}
use vitastor_operator.Api.Calls.{set_owner}
use vitastor_operator.Cluster.{create_agent, sync_agent_image, check_agent}
use vitastor_operator.Cluster.Templates.{agent_daemon_set}

-- The daemon set after the calls: the last one that was sent, or the one given.
unfoldable pub latest : DaemonSet → List Event → DaemonSet
latest ds [] = ds
latest ds (updated (daemon_set d) ∷ es) = latest d es
latest ds (e ∷ es) = latest ds es

module _ {W : Type 0} (api : Api W) (cluster : VitastorCluster) where
  configured : Meta → DaemonSet
  configured m = record (agent_daemon_set api cluster) { meta = m }

  create_agent-call :
      (r : Reference) (w : W)
      → api.library.set_controller_reference Kind.vitastor_cluster cluster.meta
          (some (agent_daemon_set api cluster).meta)
        ≡ r
      → Succeeded (create_agent api cluster w).flow
      → (m : Meta) × ((create_agent api cluster w).events
          ≡ created (daemon_set (configured m)) ∷ [])
        × ((create_agent api cluster w).flow
            ≡ exit (record {
              result = record no_requeue { requeue_after = pos (5 * minute) };
              error = none;
            }))
  unfolding create_agent set_owner configured ◌>>=◌
  create_agent-call (referred m) w e h = (m, ground arith, ground arith)
  create_agent-call (refused x) w e h = absurd (ground arith)
  create_agent-call crashed w e h = absurd (ground arith)

  configured-quiet :
      (m : Meta) (v : W)
      → ((check_agent api cluster (ok (configured m)) v).flow ≡ next tt)
        × ((check_agent api cluster (ok (configured m)) v).events ≡ [])
  unfolding configured check_agent sync_agent_image agent_daemon_set ◌>>=◌
  configured-quiet m v = ground (arith, eq_refl cluster.spec.agent_image)

  -- If the check of a daemon set with a container goes on, the daemon set that was written last, or
  -- the one that was found if none was written, has the agent's image of the specification and is
  -- otherwise the one that was found.
  check_agent_settles :
      (ds : DaemonSet) (image : String) (w : W)
      → image_of ds.template ≡ some image
      → (check_agent api cluster (ok ds) w).flow ≡ next tt
      → latest ds (check_agent api cluster (ok ds) w).events
        ≡ record ds { template = with_image cluster.spec.agent_image ds.template }
  unfolding check_agent sync_agent_image latest ◌>>=◌
  check_agent_settles ds image w i h =
      ground (arith, with_image_same ds.template image, eq_iff image cluster.spec.agent_image)

  -- A missing daemon set: if the run ends without an error, it made one call, which creates the
  -- configured daemon set, and asks to run again in five minutes; and the check of that daemon set
  -- then goes on and makes no call.
  missing_agent_settles :
      (w v : W)
      → Succeeded (check_agent api cluster (err not_found) w).flow
      → (ds : DaemonSet) × ((check_agent api cluster (err not_found) w).events
          ≡ created (daemon_set ds) ∷ [])
        × ((check_agent api cluster (err not_found) w).flow
            ≡ exit (record {
              result = record no_requeue { requeue_after = pos (5 * minute) };
              error = none;
            }))
        × ((check_agent api cluster (ok ds) v).flow ≡ next tt)
        × ((check_agent api cluster (ok ds) v).events ≡ [])
  unfolding check_agent
  missing_agent_settles w v h =
      let (m, es, f) = create_agent-call _ w refl h in
      let (f', es') = configured-quiet m v in (configured m, es, f, f', es')
