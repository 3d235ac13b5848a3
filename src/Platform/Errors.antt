-- ===== src/Platform/Errors.antt =====
-- backend/src/yitu/platform/errors.py: an `AppError` is known by its code, so each code that the
-- modelled services raise is a constructor. Python's own exceptions, which the services raise for
-- states that the callers exclude, are constructors too. The messages are left out.
use yitu.Base.{◌≡◌, refl, ◌⊎◌, inl, inr, Bool, true, false}

pub data Error : Type 0 where
  invalid_shipment_transition invalid_exception_transition : Error
  shipment_not_found shipment_fulfillment_blocked : Error
  resume_target_mismatch resume_precondition_failed : Error
  forbidden_role forbidden_station_scope forbidden_resource_owner : Error
  forbidden_task_owner forbidden_recovery_action : Error
  origin_station_required destination_station_required : Error
  quote_not_found quote_not_bound_to_shipment : Error
  payment_amount_mismatch supplement_amount_mismatch : Error
  shipment_not_payable payment_not_found shipment_not_refundable : Error
  pickup_task_not_required task_not_found task_already_assigned task_not_accepted : Error
  delivery_task_not_found : Error
  pickup_credential_not_found pickup_credential_locked : Error
  pickup_credential_expired invalid_pickup_credential pickup_not_required : Error
  shipment_not_cancellable interception_not_allowed redelivery_not_allowed : Error
  convert_to_pickup_not_allowed return_not_allowed return_not_advanceable : Error
  idempotency_key_reused : Error
  exception_case_not_found exception_type_not_allowed forbidden_exception_scope : Error
  forbidden_exception_action invalid_responsible_station invalid_case_assignee : Error
  recovery_action_not_implemented task_not_reassignable : Error
  shipment_not_blocked unresolved_blocking_cases : Error
  station_dropoff_disabled station_pickup_disabled quote_required package_required : Error
  quote_input_mismatch unsupported_service_area shipment_package_required : Error
  pricing_rule_not_found route_not_supported : Error
  address_not_found shipment_draft_incomplete shipment_draft_invalid : Error
  agent_grant_not_ready agent_grant_quote_required agent_grant_not_found : Error
  agent_grant_action_invalid agent_grant_consumed agent_grant_expired : Error
  agent_grant_draft_changed agent_grant_quote_changed agent_grant_draft_consumed : Error
  agent_grant_snapshot_invalid : Error
  multiple_results_found : Error
  value_error runtime_error lookup_error : Error

-- What a call gives: it raised, or it returned.
pub data Result (A : Type 0) : Type 0 where
  err : Error → Result A
  ok : A → Result A

abbrev pub is_ok : {A : Type 0} → Result A → Bool
is_ok (err _) = false
is_ok (ok _) = true

pub Result-cases :
    {A : Type 0} (r : Result A) → ((a : A) × (r ≡ ok a)) ⊎ ((e : Error) × (r ≡ err e))
Result-cases (ok a) = inl (a, refl)
Result-cases (err e) = inr (e, refl)

-- The statements after a call, which an exception skips.
infixl 5 ◌>>=◌ ◌>>◌
abbrev pub ◌>>=◌ : {A B : Type 0} → Result A → (A → Result B) → Result B
r >>= next = elim r [ err raised ↦ err raised | ok value ↦ next value ]

abbrev pub ◌>>◌ : {A B : Type 0} → Result A → Result B → Result B
r >> next = r >>= (λ _. next)

-- A chain that returned went through a first call that returned.
pub >>=-eq-ok :
    {A B : Type 0} (call : Result A) (next : A → Result B) {b : B}
    → (call >>= next) ≡ ok b
    → (a : A) × (call ≡ ok a) × (next a ≡ ok b)
>>=-eq-ok (err _) next h = cc
>>=-eq-ok (ok a) next h = (a, refl, h)
