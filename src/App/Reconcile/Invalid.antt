-- ===== src/App/Reconcile/Invalid.antt =====
-- A reconcile of an app whose spec is not valid.
use activemq_artemis_operato.Base.{String, ◌≡◌, refl, none, some}
use activemq_artemis_operato.Errors.{Error, ok}
use activemq_artemis_operato.Api.{BrokerApp}
use activemq_artemis_operato.App.Validate.{validate_spec}
use activemq_artemis_operato.App.Validate.Kind.{validate_spec-some}
use activemq_artemis_operato.App.Status.{process_status}
use activemq_artemis_operato.App.Reconcile.{
  World, begin, after_validate, process, write_status, returned, finish, reconcile_instance,
  reconcile_found, reconcile,
}

-- A spec that is not valid is not retried, and changes nothing but the app's status, which reports
-- the error.
pub reconcile_invalid :
    (W : Type 0) (u : World W) (w : W) (namespace name : String) (app : BrokerApp) (e : Error)
    → u.cluster.get_app namespace name ≡ ok app
    → validate_spec app ≡ some e
    → reconcile u w namespace name
      ≡ ((write_status u app w (process_status u.conditions app (begin app) (some e))).0, none)
unfolding reconcile reconcile_found reconcile_instance process after_validate finish returned
reconcile_invalid W u w namespace name app e found invalid =
    rw (found, invalid, validate_spec-some app e invalid) refl
