-- ===== src/Osd/Calls.antt =====
-- Which calls the OSD's reconciler makes, whatever the world answers.
use vitastor_operator.Prelude.{String, arith}
use vitastor_operator.Types.{VitastorOsd, StatefulSet}
use vitastor_operator.Types.Object.{Object, stateful_set}
use vitastor_operator.Flow.{Event, created, updated, Result, ◌>>=◌}
use vitastor_operator.Flow.Rules.{Emits, emits_rules}
use vitastor_operator.Api.{Api}
use vitastor_operator.Api.Calls.{set_owner}
use vitastor_operator.Osd.{create_sts, sync_image, check_sts, reconcile}

abbrev pub IsStatefulSet : Object → Type 0
IsStatefulSet (stateful_set s) = Unit
IsStatefulSet _ = ⊥

-- Stateful sets are created and updated.
abbrev pub OsdCall : Event → Type 0
OsdCall (created o) = IsStatefulSet o
OsdCall (updated o) = IsStatefulSet o
OsdCall _ = ⊥

module _ {W : Type 0} (api : Api W) where
  check_sts-OsdCall :
      (osd : VitastorOsd) (r : Result StatefulSet) → Emits OsdCall (check_sts api osd r)
  unfolding check_sts create_sts sync_image set_owner ◌>>=◌
  check_sts-OsdCall osd r = record { at = λ w. ground arith }

  -- Whatever the world answers, a run of the OSD's reconciler makes no other call than to create
  -- or to update stateful sets.
  pub osd_calls : (name : String) → Emits OsdCall (reconcile api name)
  unfolding reconcile
  osd_calls name = search (emits_rules, check_sts-OsdCall, tt) depth 12
