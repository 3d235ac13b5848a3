-- ===== src/Exceptions/StateMachine.antt =====
-- backend/src/yitu/exceptions/state_machine.py and enums.py: the table of case transitions, the
-- default policies and what each role may report. `OPEN` is `opened`, since `open` is a keyword.
pub mod Paths
use yitu.Base.{Bool, true, false, Option, none, some}
use yitu.Platform.Errors.{Result, ok, err, invalid_exception_transition}
use yitu.Shipments.Enums.{Role, customer, courier, station_operator, operations_admin}

pub data ExceptionType : Type 0 where
  pickup_failed address_error recipient_unreachable refused damage : ExceptionType
  weight_mismatch station_delay suspected_loss waiting_for_supplement : ExceptionType

pub data ExceptionSeverity : Type 0 where
  low medium high critical : ExceptionSeverity

pub data ExceptionStatus : Type 0 where
  opened assigned processing waiting_for_customer resolved closed : ExceptionStatus

pub data ExceptionSourceType : Type 0 where
  manual sla_scan : ExceptionSourceType

pub data ResolutionCode : Type 0 where
  information_corrected no_further_action cancel_shipment intercept_shipment : ResolutionCode
  redeliver convert_to_pickup return_shipment : ResolutionCode

-- The named actions; `other` is any text that the table does not name.
pub data CaseAction : Type 0 where
  assign start_processing wait_for_customer resume_processing resolve close other : CaseAction

-- `_TRANSITIONS[current].get(action)`
abbrev pub target_of : ExceptionStatus → CaseAction → Option ExceptionStatus
target_of opened assign = some assigned
target_of assigned start_processing = some processing
target_of processing wait_for_customer = some waiting_for_customer
target_of processing resolve = some resolved
target_of waiting_for_customer resume_processing = some processing
target_of waiting_for_customer resolve = some resolved
target_of resolved close = some closed
target_of _ _ = none

unfoldable pub transition : ExceptionStatus → CaseAction → Result ExceptionStatus
transition current action = elim (target_of current action) [
  | some target ↦ ok target
  | none ↦ err invalid_exception_transition
]

pub record ExceptionPolicy : Type 0 where
  pub severity : ExceptionSeverity
  pub blocks_fulfillment : Bool

-- `_DEFAULT_POLICIES`
abbrev pub default_policy : ExceptionType → ExceptionPolicy
default_policy pickup_failed = record { severity = medium; blocks_fulfillment = false }
default_policy address_error = record { severity = medium; blocks_fulfillment = true }
default_policy recipient_unreachable = record { severity = medium; blocks_fulfillment = false }
default_policy refused = record { severity = high; blocks_fulfillment = false }
default_policy damage = record { severity = high; blocks_fulfillment = false }
default_policy weight_mismatch = record { severity = medium; blocks_fulfillment = false }
default_policy station_delay = record { severity = high; blocks_fulfillment = false }
default_policy suspected_loss = record { severity = critical; blocks_fulfillment = true }
default_policy waiting_for_supplement = record { severity = medium; blocks_fulfillment = true }

-- `case_type in _REPORTABLE_TYPES[role]`
unfoldable pub reportable : Role → ExceptionType → Bool
reportable customer address_error = true
reportable customer recipient_unreachable = true
reportable customer refused = true
reportable customer damage = true
reportable customer suspected_loss = true
reportable customer _ = false
reportable courier pickup_failed = true
reportable courier address_error = true
reportable courier recipient_unreachable = true
reportable courier refused = true
reportable courier damage = true
reportable courier weight_mismatch = true
reportable courier suspected_loss = true
reportable courier _ = false
reportable station_operator waiting_for_supplement = false
reportable station_operator _ = true
reportable operations_admin _ = true

abbrev pub resolution_is_executable : ResolutionCode → Bool
resolution_is_executable information_corrected = true
resolution_is_executable no_further_action = true
resolution_is_executable _ = false
