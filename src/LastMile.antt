-- ===== src/LastMile.antt =====
-- backend/src/yitu/shipments/credentials.py: delivery at the door, the pickup credential and the
-- proof of delivery. `argon2` is not part of the repository: its `hash` (with the salt of the
-- call) and `verify` are parameters, as are the pepper and the code of a new credential. A text is
-- the list of its characters.
--
-- A query without an order gives the row that was added first.
pub mod Proofs
use Prim.Native.String.{String}
use yitu.Base.{
  ℕ, ◌+◌, Bool, true, false, ◌&&◌, ◌||◌, not, Option, none, some, List, [], ◌∷◌, ◌++◌, find_first,
  select, map, ◌==◌, opt_eq, leb, if◌then◌else◌, is_some,
}
use yitu.Base.Table.{put_row, latest_by}
use yitu.Dispatch.{save_task, is_accepted}
use yitu.Identity.{role_is, require_role, require_station_scope}
use yitu.Platform.Errors.{
  forbidden_task_owner, task_not_accepted, delivery_task_not_found, pickup_not_required,
  destination_station_required, pickup_credential_not_found, pickup_credential_locked,
  pickup_credential_expired, invalid_pickup_credential,
}
use yitu.Platform.Json.{Key}
use yitu.Shipments.Control.{lock_shipment, lock_and_assert_fulfillment_allowed, type_eq}
use yitu.Shipments.Enums.{
  ShipmentStatus, out_for_delivery, at_destination_station, waiting_for_recipient_pickup, delivered,
  status_eq, DeliveryMethod, home_delivery, station_pickup, courier, station_operator,
}
use yitu.Shipments.Transition.{transition}
use yitu.Store.Rows.{
  CurrentUser, Shipment, CourierTask, delivery, completed, PickupCredential, ProofOfDelivery,
}
use yitu.Store.Session.{Action, new_id, modify, gets, raise, or_raise, raise_if, pure, ◌>>=◌, ◌>>◌}

abbrev pub is_station_pickup : DeliveryMethod → Bool
is_station_pickup home_delivery = false
is_station_pickup station_pickup = true

-- `_mask_name`: all but the first character is an asterisk.
unfoldable pub mask_name : List ℕ → List ℕ
mask_name [] = 42 ∷ []
mask_name (c ∷ []) = 42 ∷ []
mask_name (c ∷ d ∷ ds) = c ∷ map (λ _. 42) (d ∷ ds)

unfoldable pub find_proof : ℕ → List ProofOfDelivery → Option ProofOfDelivery
find_proof shipment_id = find_first (λ p. p.proof_shipment == shipment_id)

unfoldable pub find_delivery_task : ℕ → List CourierTask → Option CourierTask
find_delivery_task shipment_id =
    find_first (λ t. (t.task_shipment == shipment_id) && type_eq t.task_type delivery)

-- `_delivery_task`
unfoldable pub delivery_task : ℕ → Action CourierTask
delivery_task shipment_id = do
  or_raise (← gets (λ s. find_delivery_task shipment_id s.tasks)) delivery_task_not_found

-- The credential that was issued last among those not used.
unfoldable pub open_credential : ℕ → List PickupCredential → Option PickupCredential
open_credential shipment_id rows =
    latest_by (λ (c : PickupCredential). c.issued_at)
      (select (λ c. (c.credential_shipment == shipment_id) && not (is_some c.consumed_at)) rows)

abbrev pub save_credential : PickupCredential → Action (Unit {0})
save_credential row = modify λ s. record s {
  credentials = put_row (λ (c : PickupCredential). c.credential_id) row s.credentials;
}

unfoldable pub start_delivery : ℕ → CurrentUser → Key → Action Shipment
unfolding delivery_task
start_delivery shipment_id actor request_id = do
  task ← delivery_task shipment_id
  raise_if (not (role_is actor.role courier) || not (opt_eq task.assignee_id (some actor.user_id)))
      forbidden_task_owner
  raise_if (not (is_accepted task.task_status)) task_not_accepted
  shipment ← lock_and_assert_fulfillment_allowed shipment_id
  transition shipment out_for_delivery actor "start_delivery" request_id
  lock_shipment shipment_id

abbrev add_proof :
    ℕ → DeliveryMethod → List ℕ → String → CurrentUser → Option ℕ → Key → Action ProofOfDelivery
add_proof shipment_id method signer verification actor station key = do
  proof_id ← new_id
  now ← gets (λ s. s.now)
  let proof : ProofOfDelivery = record {
    proof_id = proof_id;
    proof_shipment = shipment_id;
    proof_method = method;
    signer_name = signer;
    verification_method = verification;
    actor_id = actor.user_id;
    proof_station = station;
    proof_key = key;
    signed_at = now;
  }
  modify (λ s. record s { proofs = s.proofs ++ proof ∷ [] })
  pure proof

-- The rest of `confirm_delivery`, when there is no proof yet.
unfoldable pub sign_delivery : ℕ → CurrentUser → List ℕ → Key → Action ProofOfDelivery
unfolding delivery_task
sign_delivery shipment_id actor signer request_id = do
  task ← delivery_task shipment_id
  raise_if (not (role_is actor.role courier) || not (opt_eq task.assignee_id (some actor.user_id)))
      forbidden_task_owner
  shipment ← lock_and_assert_fulfillment_allowed shipment_id
  transition shipment delivered actor "confirm_delivery" request_id
  proof ←
      add_proof shipment_id home_delivery (mask_name signer) "COURIER_CONFIRMATION" actor
        (some task.station_id) request_id
  save_task (record task { task_status = completed })
  pure proof

unfoldable pub confirm_delivery : ℕ → CurrentUser → List ℕ → Key → Action ProofOfDelivery
confirm_delivery shipment_id actor signer request_id = do
  existing ← gets (λ s. find_proof shipment_id s.proofs)
  elim existing [
    | some proof ↦ pure proof
    | none ↦ sign_delivery shipment_id actor signer request_id
  ]

-- `_require_station_pickup`
unfoldable pub require_station_pickup : ℕ → CurrentUser → Action Shipment
require_station_pickup shipment_id actor = do
  require_role station_operator actor
  shipment ← lock_shipment shipment_id
  raise_if (not (is_station_pickup shipment.delivery_method)) pickup_not_required
  destination ← or_raise shipment.destination_station_id destination_station_required
  require_station_scope destination actor
  pure shipment

-- A credential that is replaced expires at once.
abbrev expire_credential : Option PickupCredential → ℕ → Action (Unit {0})
expire_credential none now = pure tt
expire_credential (some c) now = save_credential (record c { expires_at = now })

abbrev await_recipient : Shipment → CurrentUser → Key → Action (Unit {0})
await_recipient shipment actor request_id =
    elim (status_eq shipment.status at_destination_station) [
      | true ↦ do
        transition shipment waiting_for_recipient_pickup actor "issue_pickup_credential" request_id
        pure tt
      | false ↦ pure tt
    ]

-- `failed_attempts >= 5` after one more failure
abbrev pub failed_once_more : PickupCredential → ℕ → PickupCredential
failed_once_more c now = record c {
  failed_attempts = c.failed_attempts + 1;
  locked_at = if leb 5 (c.failed_attempts + 1) then some now else c.locked_at;
}

module _ (hash : ℕ → List ℕ → ℕ) (verify : ℕ → List ℕ → Bool) (pepper : List ℕ) where
  -- `raw_code` is the code that is asked for, the code of the demo, or a random one.
  unfoldable pub issue_pickup_credential :
      ℕ → CurrentUser → Key → (raw_code : List ℕ) → (expires_in : ℕ) → Action PickupCredential
  issue_pickup_credential shipment_id actor request_id raw_code expires_in = do
    shipment ← require_station_pickup shipment_id actor
    lock_and_assert_fulfillment_allowed shipment.id
    existing ← gets (λ s. open_credential shipment_id s.credentials)
    now ← gets (λ s. s.now)
    expire_credential existing now
    await_recipient shipment actor request_id
    credential_id ← new_id
    let credential : PickupCredential = record {
      credential_id = credential_id;
      credential_shipment = shipment_id;
      credential_station = actor.user_station;
      code_hash = hash credential_id (raw_code ++ pepper);
      expires_at = now + expires_in;
      failed_attempts = 0;
      locked_at = none;
      consumed_at = none;
      issued_at = now;
    }
    modify (λ s. record s { credentials = s.credentials ++ credential ∷ [] })
    pure credential

  -- The rest of `verify_station_pickup`, when the credential is known.
  unfoldable pub check_credential :
      Shipment → PickupCredential → CurrentUser → List ℕ → Key → Action ProofOfDelivery
  check_credential shipment credential actor code request_id = do
    now ← gets (λ s. s.now)
    raise_if (is_some credential.locked_at) pickup_credential_locked
    raise_if (leb credential.expires_at now) pickup_credential_expired
    elim (verify credential.code_hash (code ++ pepper)) [
      | false ↦ do
        save_credential (failed_once_more credential now)
        raise invalid_pickup_credential
      | true ↦ do
        save_credential (record credential { consumed_at = some now })
        transition shipment delivered actor "verify_station_pickup" request_id
        add_proof shipment.id station_pickup (32593 ∷ 28857 ∷ 33258 ∷ 21462 ∷ []) "PICKUP_CODE"
            actor actor.user_station request_id
    ]

  unfoldable pub sign_pickup : ℕ → CurrentUser → List ℕ → Key → Action ProofOfDelivery
  unfolding check_credential
  sign_pickup shipment_id actor code request_id = do
    shipment ← require_station_pickup shipment_id actor
    lock_and_assert_fulfillment_allowed shipment.id
    credential ←
        or_raise (← gets (λ s. open_credential shipment_id s.credentials))
          pickup_credential_not_found
    check_credential shipment credential actor code request_id

  unfoldable pub verify_station_pickup : ℕ → CurrentUser → List ℕ → Key → Action ProofOfDelivery
  verify_station_pickup shipment_id actor code request_id = do
    existing ← gets (λ s. find_proof shipment_id s.proofs)
    elim existing [ some proof ↦ pure proof | none ↦ sign_pickup shipment_id actor code request_id ]
