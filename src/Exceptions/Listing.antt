-- ===== src/Exceptions/Listing.antt =====
-- backend/src/yitu/exceptions/service.py, `get_case` and `list_cases`: the cases that an actor sees.
use yitu.Base.{
  ℕ, Bool, true, false, ◌&&◌, ◌||◌, Option, none, some, List, map, length, find_first, select,
  any_of, leb, ◌==◌, opt_eq,
}
use yitu.Base.Sorting.{sort_by, skip, limit_to}
use yitu.Exceptions.Cases.{case_view, type_text, case_status_text, severity_text}
use yitu.Exceptions.StateMachine.{ExceptionType, ExceptionSeverity, ExceptionStatus}
use package.text.Mathlib.Text.{◌==◌ as str_eq}
use yitu.Platform.Errors.{exception_case_not_found}
use yitu.Platform.Json.{Object}
use yitu.Shipments.Enums.{Role, customer, courier, station_operator, operations_admin}
use yitu.Store.Cases.{ExceptionCase}
use yitu.Store.Queries.{find_shipment}
use yitu.Store.Rows.{CurrentUser, Shipment, CourierTask}
use yitu.Store.Session.{Action, Session, gets, or_raise, pure, ◌>>=◌}

abbrev pub has_assigned_task : ℕ → ℕ → List CourierTask → Bool
has_assigned_task shipment_id actor_id =
    any_of (λ t. (t.task_shipment == shipment_id) && opt_eq t.assignee_id (some actor_id))

abbrev pub has_task_at : ℕ → ℕ → List CourierTask → Bool
has_task_at shipment_id station_id =
    any_of (λ t. (t.task_shipment == shipment_id) && (t.station_id == station_id))

abbrev station_sees : Option ℕ → Shipment → List CourierTask → ExceptionCase → Bool
station_sees none r tasks c = false
station_sees (some station) r tasks c =
    (opt_eq r.origin_station_id (some station) || opt_eq r.destination_station_id (some station))
    || has_task_at c.case_shipment station tasks

abbrev role_sees : Role → CurrentUser → Shipment → List CourierTask → ExceptionCase → Bool
role_sees operations_admin actor r tasks c = true
role_sees customer actor r tasks c = r.owner_id == actor.user_id
role_sees courier actor r tasks c =
    opt_eq c.reported_by (some actor.user_id)
    || has_assigned_task c.case_shipment actor.user_id tasks
role_sees station_operator actor r tasks c = station_sees actor.user_station r tasks c

-- `_scoped_cases`: the test on a case joined with its shipment.
unfoldable pub in_scope : CurrentUser → Session → ExceptionCase → Bool
in_scope actor s c = elim (find_shipment c.case_shipment s.shipments) [
  | none ↦ false
  | some r ↦ role_sees actor.role actor r s.tasks c
]

-- `ExceptionListFilters`, less the window.
pub record CaseFilters : Type 0 where
  pub by_shipment : Option ℕ
  pub by_status : Option ExceptionStatus
  pub by_type : Option ExceptionType
  pub by_severity : Option ExceptionSeverity
  pub by_station : Option ℕ
  pub by_assignee : Option ℕ
  pub by_blocking : Option Bool

-- A filter that is absent lets every row pass.
abbrev pub passes {ℓ} : {A : Type ℓ} → Option A → (A → Bool) → Bool
passes none test = true
passes (some a) test = test a

abbrev same_flag : Bool → Bool → Bool
same_flag true b = b
same_flag false true = false
same_flag false false = true

-- `_apply_filters`
unfoldable pub matches : CaseFilters → ExceptionCase → Bool
matches f c =
    passes f.by_shipment (λ k. c.case_shipment == k)
    && (passes f.by_status (λ x. str_eq (case_status_text c.case_status) (case_status_text x))
        && (passes f.by_type (λ x. str_eq (type_text c.case_type) (type_text x))
            && (passes f.by_severity (λ x. str_eq (severity_text c.case_severity) (severity_text x))
                && (passes f.by_station (λ k. opt_eq c.responsible_station (some k))
                    && (passes f.by_assignee (λ k. opt_eq c.assigned_to (some k))
                        && passes f.by_blocking (λ b. same_flag c.case_blocks b))))))

-- `order_by(opened_at.desc())`
unfoldable pub newest_first : List ExceptionCase → List ExceptionCase
newest_first = sort_by (λ (x y : ExceptionCase). leb y.opened_at x.opened_at)

unfoldable pub get_case : ℕ → CurrentUser → Action Object
get_case case_id actor = do
  found ← gets (λ s. find_first (λ c. in_scope actor s c && (c.case_id == case_id)) s.cases)
  row ← or_raise found exception_case_not_found
  pure (case_view row)

-- The cases that a listing is about.
unfoldable pub listed : CurrentUser → CaseFilters → Session → List ExceptionCase
listed actor filters s = select (λ c. in_scope actor s c && matches filters c) s.cases

-- A page of the views, and the number of the cases on all pages.
unfoldable pub list_cases : CurrentUser → CaseFilters → ℕ → ℕ → Action (List Object × ℕ)
list_cases actor filters offset limit = gets λ s. (
  map case_view (limit_to limit (skip offset (newest_first (listed actor filters s)))),
  length (listed actor filters s),
)
