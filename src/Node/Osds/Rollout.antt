-- ===== src/Node/Osds/Rollout.antt =====
-- Several runs of the loop over the objects, one after the other: the rollout of a new image.
use vitastor_operator.Prelude.{
  ℕ, zero, suc, ◌<◌, String, ◌≡◌, refl, ◌∙◌, true, List, [], ◌∷◌, arith, All, count,
}
use vitastor_operator.Types.{VitastorNode, VitastorOsd}
use vitastor_operator.Flow.{Result, ok, err, CtrlResult, ◌>>=◌, for_each}
use vitastor_operator.Api.{Api}
use vitastor_operator.Api.Laws.{is_ok}
use vitastor_operator.Node.{osd_options}
use vitastor_operator.Node.Osds.{prune_osd, roll_osd, drop_osd}
use vitastor_operator.Node.Osds.Prune.{prune, rolled, is_outdated}
use vitastor_operator.Node.Osds.Swept.{
  replace, remove, Distinct, effect, swept, effect_self, swept-Distinct, count-swept, is_settled,
  swept_settled,
}

-- A server that holds the node's OSDs, lists them, accepts every update and deletion, and that
-- nobody else writes to.
record OsdStore {W : Type 0} (api : Api W) (node : VitastorNode) : Type 0 where
  pub held : W → List VitastorOsd
  pub lists : (w : W) → (api.kube.list_osds (osd_options node) w).0 ≡ ok (held w)
  pub list_keeps : (w : W) → held (api.kube.list_osds (osd_options node) w).1 ≡ held w
  pub update_ok : (osd : VitastorOsd) (w : W) → is_ok (api.kube.update_osd osd w).0 ≡ true
  pub updates :
      (osd : VitastorOsd) (w : W) → held (api.kube.update_osd osd w).1 ≡ replace osd (held w)
  pub delete_ok : (osd : VitastorOsd) (w : W) → is_ok (api.kube.delete_osd osd w).0 ≡ true
  pub deletes :
      (osd : VitastorOsd) (w : W)
      → held (api.kube.delete_osd osd w).1 ≡ remove osd.meta.name (held w)

module _ {W : Type 0} (api : Api W) (node : VitastorNode) (store : OsdStore api node)
    (later : CtrlResult) (paths : List String) where
  prune-effect :
      (items : List VitastorOsd) (w : W)
      → store.held (prune api later node paths items w).world
        ≡ effect node paths items (store.held w)
  unfolding for_each ◌>>=◌ prune_osd roll_osd drop_osd effect
  prune-effect [] w = refl
  prune-effect (osd ∷ items) w = ground (
    arith,
    store.update_ok (rolled node osd) w,
    store.updates (rolled node osd) w,
    store.delete_ok osd w,
    store.deletes osd w,
    prune-effect items w,
    prune-effect items (api.kube.delete_osd osd w).1,
  )

  after_list : Result (List VitastorOsd) → W → W
  after_list (ok items) w = (prune api later node paths items w).world
  after_list (err e) w = w

  -- The world after the node's objects were listed and the loop ran over them.
  unfoldable pass : W → W
  unfolding after_list
  pass w = let (listed, v) = api.kube.list_osds (osd_options node) w in after_list listed v

  -- The world after that was done a number of times.
  unfoldable passes : ℕ → W → W
  passes zero w = w
  passes (suc n) w = passes n (pass w)

  pass_sweeps :
      (w : W) → Distinct (store.held w) → store.held (pass w) ≡ swept node paths (store.held w)
  unfolding pass
  pass_sweeps w d =
      let v = (api.kube.list_osds (osd_options node) w).1 in
      rw (store.lists w, after_list)
        (prune-effect (store.held w) v
          ∙ rw (store.list_keeps w) (effect_self node paths (store.held w) d))

  -- However many objects are outdated, that many runs and one more leave settled objects alone: each
  -- of the node's OSD objects has a path that the agent lists, and the node's image. The server is to
  -- hold the objects, under distinct names, and nobody else is to write to it.
  rollout_settles :
      (n : ℕ) (w : W)
      → Distinct (store.held w)
      → count (is_outdated node paths) (store.held w) < n
      → All (λ osd. is_settled node paths osd ≡ true) (store.held (passes n w))
  unfolding passes
  rollout_settles zero w d h = absurd (omega arith)
  rollout_settles (suc zero) w d h =
      rw (pass_sweeps w d) (swept_settled node paths (store.held w) (omega arith))
  rollout_settles (suc (suc n)) w d h =
      rollout_settles (suc n) (pass w) (rw (pass_sweeps w d) (swept-Distinct node paths _ d))
        (rw (pass_sweeps w d) (omega (arith, count-swept node paths (store.held w))))
