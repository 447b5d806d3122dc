-- ===== src/Node/Osds/Prune.antt =====
-- The loop over the node's OSD objects: what it updates and deletes.
use vitastor_operator.Prelude.{
  ◌*◌, ◌≤◌, String, ◌≡◌, ◌↔◌, ◌∙◌, refl, true, false, Bool, not, ◌&&◌, List, any, map, [], ◌∷◌,
  none, arith, ◌==◌, Begins, count, count-Begins, if◌then◌else◌,
}
use vitastor_operator.Prelude.Int.{pos}
use vitastor_operator.Types.{VitastorNode, VitastorOsd}
use vitastor_operator.Types.Object.{vitastor_osd}
use vitastor_operator.Flow.{
  Action, CtrlResult, Event, updated, deleted, Succeeded, Reply, next, exit, minute, ◌>>=◌,
  for_each,
}
use vitastor_operator.Api.{Api}
use vitastor_operator.Api.Laws.{AcceptsOsds}
use vitastor_operator.Node.Placement.{contains_str_list}
use vitastor_operator.Node.Osds.{prune_osd, roll_osd, drop_osd}

-- The object with the node's image.
abbrev pub rolled : VitastorNode → VitastorOsd → VitastorOsd
rolled node osd = record osd { spec = record osd.spec { osd_image = node.spec.osd_image } }

-- The calls of the loop if each succeeds: the objects whose path the agent does not list are
-- deleted, up to the first one that is listed and has another image, which is updated.
unfoldable pub planned : VitastorNode → List String → List VitastorOsd → List Event
planned node paths [] = []
planned node paths (osd ∷ items) =
    let rest = planned node paths items in
    if contains_str_list paths osd.spec.osd_path
    then if osd.spec.osd_image == node.spec.osd_image
      then rest
      else updated (vitastor_osd (rolled node osd)) ∷ []
    else deleted (vitastor_osd osd) ∷ rest

module _ {W : Type 0} (api : Api W) (later : CtrlResult) (node : VitastorNode)
    (paths : List String) where
  abbrev pub prune : List VitastorOsd → Action W (Unit {0})
  prune items = for_each items (prune_osd api later node paths)

  -- Whatever the world answers, the loop's calls are a beginning of the plan.
  pub prune-Begins :
      (items : List VitastorOsd) (w : W) → Begins (prune items w).events (planned node paths items)
  unfolding planned for_each ◌>>=◌ prune_osd roll_osd drop_osd
  prune-Begins [] w = tt
  prune-Begins (osd ∷ items) w =
      ground (arith, prune-Begins items w, prune-Begins items (api.kube.delete_osd osd w).1)

  -- If the loop goes on, or ends without an error, its calls are the plan.
  pub prune_plan :
      (items : List VitastorOsd) (w : W)
      → Succeeded (prune items w).flow
      → (prune items w).events ≡ planned node paths items
  unfolding planned for_each ◌>>=◌ prune_osd roll_osd drop_osd
  prune_plan [] w s = refl
  prune_plan (osd ∷ items) w s =
      ground (arith, prune_plan items w, prune_plan items (api.kube.delete_osd osd w).1)

abbrev pub is_update : Event → Bool
is_update (updated o) = true
is_update _ = false

one_planned :
    (node : VitastorNode) (paths : List String) (items : List VitastorOsd)
    → count is_update (planned node paths items) ≤ 1
unfolding planned
one_planned node paths [] = omega arith
one_planned node paths (osd ∷ items) = ground (arith, one_planned node paths items)

-- An object that is listed and has another image than the node's.
abbrev pub is_outdated : VitastorNode → List String → VitastorOsd → Bool
is_outdated node paths osd =
    contains_str_list paths osd.spec.osd_path && not (osd.spec.osd_image == node.spec.osd_image)

module _ {W : Type 0} (api : Api W) (later : CtrlResult) (node : VitastorNode)
    (paths : List String) where
  -- One run rolls the image of at most one OSD.
  pub prune_one_update :
      (items : List VitastorOsd) (w : W)
      → count is_update (prune api later node paths items w).events ≤ 1
  prune_one_update items w = omega (
    arith,
    one_planned node paths items,
    count-Begins is_update (prune api later node paths items w).events (planned node paths items)
        (prune-Begins api later node paths items w),
  )

  -- If the server accepts every update and deletion, the loop ends without an error, and it goes on
  -- to its end exactly when no object is outdated.
  pub prune_done :
      AcceptsOsds api
      → (items : List VitastorOsd) (w : W)
      → Succeeded (prune api later node paths items w).flow
        × (((prune api later node paths items w).flow ≡ next tt)
            ↔ (any (is_outdated node paths) items ≡ false))
  unfolding for_each ◌>>=◌ prune_osd roll_osd drop_osd
  prune_done accepts [] w = ground arith
  prune_done accepts (osd ∷ items) w = ground (
    arith,
    accepts.0 (rolled node osd) w,
    accepts.1 osd w,
    prune_done accepts items w,
    prune_done accepts items (api.kube.delete_osd osd w).1,
  )

  -- A run that ends here without an error asks for the next one in three minutes.
  prune_requeue :
      (items : List VitastorOsd) (w : W) (r : Reply)
      → (prune api later node paths items w).flow ≡ exit r
      → r.error ≡ none
      → r.result.requeue_after ≡ pos (3 * minute)
  unfolding for_each ◌>>=◌ prune_osd roll_osd drop_osd
  prune_requeue [] w r h e = cc
  prune_requeue (osd ∷ items) w r h e =
      ground (arith, prune_requeue items w r, prune_requeue items (api.kube.delete_osd osd w).1 r)

all_deleted :
    (node : VitastorNode) (items : List VitastorOsd)
    → planned node [] items ≡ map (λ osd. deleted (vitastor_osd osd)) items
unfolding planned contains_str_list
all_deleted node [] = refl
all_deleted node (osd ∷ items) = ground (arith, all_deleted node items)

module _ {W : Type 0} (api : Api W) (later : CtrlResult) (node : VitastorNode) where
  -- If the agent's answer gives no OSD, then a loop that ends without an error has sent a deletion
  -- of every object of the node, and nothing else.
  prune_all :
      (items : List VitastorOsd) (w : W)
      → Succeeded (prune api later node [] items w).flow
      → (prune api later node [] items w).events ≡ map (λ osd. deleted (vitastor_osd osd)) items
  prune_all items w s = prune_plan api later node [] items w s ∙ all_deleted node items
