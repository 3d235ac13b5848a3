-- ===== src/LastMile/Proofs.antt =====
-- A shipment is signed for once, with the code of its credential
-- (backend/src/yitu/shipments/credentials.py).
use yitu.Base.{
  ℕ, ◌<◌, ◌≡◌, Bool, true, false, none, some, inl, inr, [], ◌∷◌, ◌++◌, List, arith, Option-cases,
}
use yitu.LastMile.{
  find_proof, find_delivery_task, delivery_task, sign_delivery, confirm_delivery,
  require_station_pickup, open_credential, check_credential, sign_pickup, verify_station_pickup,
  save_credential,
}
use yitu.Platform.Errors.{ok, is_ok, Result-cases}
use yitu.Platform.Json.{Key}
use yitu.Shipments.Control.{lock_shipment, lock_and_assert_fulfillment_allowed}
use yitu.Shipments.Enums.{delivered, courier}
use yitu.Shipments.Transition.Frame.{transition-MovesOnly}
use yitu.Store.Queries.{find_shipment, find_shipment-id}
use yitu.Store.Rows.{CurrentUser, Shipment, CourierTask, PickupCredential, ProofOfDelivery}
use yitu.Store.Session.{Session, transact}

find_proof-append :
    (k : ℕ) (p : ProofOfDelivery) (ps : List ProofOfDelivery)
    → find_proof k ps ≡ none
    → p.proof_shipment ≡ k
    → find_proof k (ps ++ p ∷ []) ≡ some p
unfolding find_proof
find_proof-append k p [] n e = ground arith
find_proof-append k p (q ∷ ps) n e = ground (arith, find_proof-append k p ps)

module _ (k : ℕ) (actor : CurrentUser) (signer : List ℕ) (request_id : Key) (s : Session) where
  door_proof :
      {task : CourierTask} {r : Shipment} {p : ProofOfDelivery} {t : Session}
      → find_delivery_task k s.tasks ≡ some task
      → find_shipment k s.shipments ≡ some r
      → sign_delivery k actor signer request_id s ≡ (ok p, t)
      → (t.proofs ≡ s.proofs ++ p ∷ [])
        × (p.proof_shipment ≡ k)
        × (actor.role ≡ courier)
        × (task.assignee_id ≡ some actor.user_id)
  unfolding sign_delivery delivery_task lock_and_assert_fulfillment_allowed lock_shipment
  door_proof {task} {r} {p} {t} f g h =
      let m = transition-MovesOnly r delivered actor "confirm_delivery" request_id s in
      (ground (arith, m), ground arith, ground arith, ground arith)

-- The session in which a credential has been used.
abbrev with_used : PickupCredential → Session → Session
with_used c s = (save_credential (record c { consumed_at = some s.now }) s).1

module _ (hash : ℕ → List ℕ → ℕ) (verify : ℕ → List ℕ → Bool) (pepper : List ℕ) (k : ℕ)
    (actor : CurrentUser) (code : List ℕ) (request_id : Key) (s : Session) {r : Shipment}
    {c : PickupCredential} where
  station-guards :
      {p : ProofOfDelivery} {t : Session}
      → find_shipment k s.shipments ≡ some r
      → open_credential k s.credentials ≡ some c
      → sign_pickup hash verify pepper k actor code request_id s ≡ (ok p, t)
      → (p.proof_shipment ≡ k)
        × (verify c.code_hash (code ++ pepper) ≡ true)
        × (c.locked_at ≡ none)
        × (s.now < c.expires_at)
  unfolding sign_pickup check_credential require_station_pickup lock_and_assert_fulfillment_allowed
      lock_shipment
  station-guards {p} {t} g f h =
      let id : r.id ≡ k = find_shipment-id k s.shipments g in
      (ground arith, ground arith, ground arith, ground arith)

  station-proofs :
      {p : ProofOfDelivery} {t : Session}
      → find_shipment k s.shipments ≡ some r
      → open_credential k s.credentials ≡ some c
      → sign_pickup hash verify pepper k actor code request_id s ≡ (ok p, t)
      → t.proofs ≡ s.proofs ++ p ∷ []
  unfolding sign_pickup check_credential require_station_pickup lock_and_assert_fulfillment_allowed
      lock_shipment
  station-proofs {p} {t} g f h = ground (
    arith,
    transition-MovesOnly r delivered actor "verify_station_pickup" request_id (with_used c s),
  )

  -- A pickup at the station that is signed, of a shipment without a proof so far, used the code
  -- of the shipment's open credential, which was neither locked nor expired, and its proof is
  -- found afterwards.
  pub pickup_signed :
      {p : ProofOfDelivery} {t : Session}
      → find_shipment k s.shipments ≡ some r
      → open_credential k s.credentials ≡ some c
      → find_proof k s.proofs ≡ none
      → verify_station_pickup hash verify pepper k actor code request_id s ≡ (ok p, t)
      → (find_proof k t.proofs ≡ some p)
        × (verify c.code_hash (code ++ pepper) ≡ true)
        × (c.locked_at ≡ none)
        × (s.now < c.expires_at)
  unfolding verify_station_pickup
  pickup_signed {p} {t} g f n h =
      let h' : sign_pickup hash verify pepper k actor code request_id s ≡ (ok p, t) =
        ground arith in
      let (a, b, d, e) = station-guards g f h' in
      (rw (station-proofs g f h') (find_proof-append k p s.proofs n a), b, d, e)

  wrong-code :
      find_shipment k s.shipments ≡ some r
      → open_credential k s.credentials ≡ some c
      → find_proof k s.proofs ≡ none
      → verify c.code_hash (code ++ pepper) ≡ false
      → is_ok (verify_station_pickup hash verify pepper k actor code request_id s).0 ≡ false
  unfolding verify_station_pickup sign_pickup check_credential require_station_pickup
      lock_and_assert_fulfillment_allowed lock_shipment
  wrong-code g f n v = ground arith

  -- A wrong code for the open credential of a shipment without a proof never signs, and after
  -- the request, which rolls back, the session is what it was: the failure that the call counts
  -- is gone.
  pub wrong_code_forgotten :
      find_shipment k s.shipments ≡ some r
      → open_credential k s.credentials ≡ some c
      → find_proof k s.proofs ≡ none
      → verify c.code_hash (code ++ pepper) ≡ false
      → (is_ok (verify_station_pickup hash verify pepper k actor code request_id s).0 ≡ false)
        × ((transact (verify_station_pickup hash verify pepper k actor code request_id) s).1 ≡ s)
  unfolding transact
  wrong_code_forgotten g f n v =
      let w = wrong-code g f n v in
      elim (Result-cases (verify_station_pickup hash verify pepper k actor code request_id s).0) [
        | inl (p, e) ↦ absurd (ground arith)
        | inr (x, e) ↦ (w, ground (arith, e))
      ]

door-rows :
    (k : ℕ) (actor : CurrentUser) (signer : List ℕ) (request_id : Key) (s : Session)
    {p : ProofOfDelivery} {t : Session}
    → sign_delivery k actor signer request_id s ≡ (ok p, t)
    → (task : CourierTask) × (r : Shipment) × (find_delivery_task k s.tasks ≡ some task)
      × (find_shipment k s.shipments ≡ some r)
unfolding sign_delivery delivery_task lock_and_assert_fulfillment_allowed lock_shipment
door-rows k actor signer request_id s {p} {t} h =
    elim (Option-cases (find_delivery_task k s.tasks)) [
      | inl n ↦ absurd (ground arith)
      | inr (task, f) ↦ elim (Option-cases (find_shipment k s.shipments)) [
        | inl n ↦ absurd (ground arith)
        | inr (r, g) ↦ (task, r, f, g)
      ]
    ]

-- A delivery that is signed for stays so: whoever signs or picks up next, under whatever request
-- and code, is given the same proof, and nothing more is written.
pub signed_once :
    (k : ℕ) (actor : CurrentUser) (signer : List ℕ) (request_id : Key) (s : Session)
    {p : ProofOfDelivery} {t : Session} (other : CurrentUser) (name code pepper : List ℕ)
    (other_request : Key) (hash : ℕ → List ℕ → ℕ) (verify : ℕ → List ℕ → Bool)
    → confirm_delivery k actor signer request_id s ≡ (ok p, t)
    → (confirm_delivery k other name other_request t ≡ (ok p, t))
      × (verify_station_pickup hash verify pepper k other code other_request t ≡ (ok p, t))
unfolding confirm_delivery verify_station_pickup
signed_once k actor signer request_id s {p} {t} other name code pepper other_request hash verify h =
    let kept : find_proof k t.proofs ≡ some p = elim (Option-cases (find_proof k s.proofs)) [
      | inr (q, f) ↦ ground arith
      | inl n ↦
          let h' : sign_delivery k actor signer request_id s ≡ (ok p, t) = ground arith in
          let (task, r, f, g) = door-rows k actor signer request_id s h' in
          let (a, b, _, _) = door_proof k actor signer request_id s f g h' in
          rw a (find_proof-append k p s.proofs n b)
    ] in
    (ground arith, ground arith)
