-- ===== src/Osd/Safety.antt =====
-- Panics of the OSD's reconciler.
use vitastor_operator.Prelude.{String, ◌≡◌, ◌≢◌, arith}
use vitastor_operator.Prelude.Int.{ℤ, int32}
use vitastor_operator.Types.{Kind, VitastorOsd, StatefulSet}
use vitastor_operator.Flow.{WhenOk, Result, ok, err, not_found, failed, panic, ◌>>=◌}
use vitastor_operator.Flow.Safety.{
  Ensures, Any, Ensures-call, Ensures-bind, Ensures-then, Ensures-ask, Ensures-or_skip,
  Ensures-return, not_panic,
}
use vitastor_operator.Api.{Api}
use vitastor_operator.Api.Calls.{set_owner}
use vitastor_operator.Api.Laws.{ServesWorkloads, HasContainer}
use vitastor_operator.Config.{env_or, namespace, parse_int}
use vitastor_operator.Osd.{
  stateful_set_of, get_configuration, create_sts, sync_image, check_sts, reconcile,
}

module _ {W : Type 0} (api : Api W) (serves : ServesWorkloads api) (port : ℤ)
    (is_port : parse_int (env_or api "CONTAINER_PORT" "5666") ≡ ok port) where
  check_sts-safe :
      (osd : VitastorOsd) (r : Result StatefulSet)
      → WhenOk (λ (s : StatefulSet). HasContainer s.template) r
      → Ensures Any (check_sts api osd r)
  unfolding check_sts create_sts sync_image get_configuration set_owner ◌>>=◌
  check_sts-safe osd (err not_found) h = record {
    at = λ w. ground (
      arith,
      is_port,
      serves.owner_is_set Kind.vitastor_osd osd.meta
          (stateful_set_of (namespace api) osd (int32 port)).meta,
    );
  }
  check_sts-safe osd (err (failed m)) h = record { at = λ w. ground arith }
  check_sts-safe osd (ok sts) h = record { at = λ w. ground arith }

  reconcile-safe : (name : String) → Ensures Any (reconcile api name)
  unfolding reconcile
  reconcile-safe name = Ensures-then _ _ (Ensures-ask _ _) λ found.
      Ensures-then _ _ (Ensures-or_skip found) λ osd.
        Ensures-bind _ _ (Ensures-call _ _ (serves.got_stateful_set _))
          λ sts h. Ensures-bind _ _ (check_sts-safe osd sts h) λ _ _. Ensures-return _ _

  -- A run of the OSD's reconciler does not panic. The container's port is to be a number, the server
  -- is to answer stateful sets that have a container, and setting an owner on an object that is
  -- there is not to panic.
  pub osd_safe : (name : String) (w : W) → (reconcile api name w).flow ≢ panic
  osd_safe name w = not_panic (reconcile api name) (reconcile-safe name) w
