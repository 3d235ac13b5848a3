-- ===== src/Blocked.antt =====
-- A held shipment stands still: what each service does when a hold is active on the shipment
-- (backend/src/yitu/shipments/control.py and the services that ask it).
use yitu.Base.{ℕ, ◌≡◌, Bool, true, false, none, some, inl, inr, List, Option-cases, arith}
use yitu.Dispatch.{
  accept_task, confirm_pickup, accept_dropoff, confirm_origin_arrival, reach_origin, get_task,
  require_origin_operator,
}
use yitu.LastMile.{
  start_delivery, delivery_task, sign_delivery, confirm_delivery, find_proof,
  issue_pickup_credential, verify_station_pickup, sign_pickup, require_station_pickup,
}
use yitu.Linehaul.{dispatch_linehaul, arrive_destination}
use yitu.Payments.{pay_operation}
use yitu.Platform.Errors.{is_ok}
use yitu.Platform.Json.{Key}
use yitu.Returns.{wrapped}
use yitu.Returns.Operations.{RecoveryOperation}
use yitu.Shipments.Control.{is_blocked, lock_and_assert_fulfillment_allowed, lock_shipment}
use yitu.Store.Queries.{find_shipment, find_task, find_shipment-id}
use yitu.Store.Catalog.{QuoteSnapshot}
use yitu.Store.Rows.{CurrentUser, CourierTask, RecoveryAction}
use yitu.Store.Session.{Session, Action}

-- A call that raises and writes nothing.
abbrev pub IsRefused : {A : Type 0} → Action A → Session → Type 0
IsRefused m s = (is_ok (m s).0 ≡ false) × ((m s).1 ≡ s)

module _ (k : ℕ) (actor : CurrentUser) (request_id : Key) (s : Session) where
  -- While a hold is active on the shipment of a task, no courier accepts the task or confirms its
  -- pickup: the call raises and writes nothing.
  pub blocked_tasks :
      (task_id : ℕ) {t : CourierTask}
      → find_task task_id s.tasks ≡ some t
      → is_blocked t.task_shipment s.holds ≡ true
      → IsRefused (accept_task task_id actor request_id) s
        × IsRefused (confirm_pickup task_id actor request_id) s
  unfolding accept_task confirm_pickup get_task lock_and_assert_fulfillment_allowed lock_shipment
  blocked_tasks task_id {t} f b = (ground arith, ground arith)

  -- While a hold is active on a shipment, its origin does not take it over, it does not depart and
  -- it does not arrive: each call raises and writes nothing.
  pub blocked_stations :
      is_blocked k s.holds ≡ true
      → IsRefused (accept_dropoff k actor request_id) s
        × IsRefused (confirm_origin_arrival k actor request_id) s
        × IsRefused (dispatch_linehaul k actor request_id) s
        × IsRefused (arrive_destination k actor request_id) s
  unfolding accept_dropoff confirm_origin_arrival reach_origin require_origin_operator
      dispatch_linehaul arrive_destination lock_and_assert_fulfillment_allowed lock_shipment
  blocked_stations b = elim (Option-cases (find_shipment k s.shipments)) [
    | inl f ↦ (ground arith, ground arith, ground arith, ground arith)
    | inr (r, f) ↦
        let p : r.id ≡ k = find_shipment-id k s.shipments f in
        (ground arith, ground arith, ground arith, ground arith)
  ]

  -- While a hold is active on a shipment that has no proof of delivery, it is not sent out, not
  -- signed for at the door or at the station, and gets no pickup credential: each call raises and
  -- writes nothing, whatever the code, the pepper and the hashes.
  pub blocked_last_mile :
      (signer code pepper : List ℕ) (expires_in : ℕ) (hash : ℕ → List ℕ → ℕ)
      (verify : ℕ → List ℕ → Bool)
      → is_blocked k s.holds ≡ true
      → find_proof k s.proofs ≡ none
      → IsRefused (start_delivery k actor request_id) s
        × IsRefused (confirm_delivery k actor signer request_id) s
        × IsRefused
            (issue_pickup_credential hash verify pepper k actor request_id code expires_in)
            s
        × IsRefused (verify_station_pickup hash verify pepper k actor code request_id) s
  unfolding start_delivery delivery_task sign_delivery confirm_delivery issue_pickup_credential
      verify_station_pickup sign_pickup require_station_pickup lock_and_assert_fulfillment_allowed
      lock_shipment
  blocked_last_mile signer code pepper expires_in hash verify b n =
      elim (Option-cases (find_shipment k s.shipments)) [
        | inl f ↦ (ground arith, ground arith, ground arith, ground arith)
        | inr (r, f) ↦
            let p : r.id ≡ k = find_shipment-id k s.shipments f in
            (ground arith, ground arith, ground arith, ground arith)
      ]

  -- While a hold is active on a shipment, no quote is paid for it and no recovery runs on it,
  -- whatever the recovery's operation: the call raises and writes nothing.
  pub blocked_commands :
      (quote : QuoteSnapshot) (amount : ℕ) (key reason : Key) (action : RecoveryAction)
      (operation : RecoveryOperation)
      → is_blocked k s.holds ≡ true
      → IsRefused (pay_operation quote k amount actor key) s
        × IsRefused (wrapped k action reason actor key request_id operation) s
  unfolding pay_operation wrapped lock_and_assert_fulfillment_allowed lock_shipment
  blocked_commands quote amount key reason action operation b = (ground arith, ground arith)
