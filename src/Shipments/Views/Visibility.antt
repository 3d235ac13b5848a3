-- ===== src/Shipments/Views/Visibility.antt =====
-- Who sees a shipment (backend/src/yitu/shipments/service.py).
use yitu.Base.{
  ℕ, ◌≡◌, refl, sym, ap, ◌∙◌, Bool, true, false, ◌&&◌, none, some, List, [], ◌∷◌, find_first, ◌==◌,
  eq-of_==, Option-cases, inl, inr, arith,
}
use yitu.Platform.Errors.{Result, ok, err}
use yitu.Shipments.Enums.{Role, customer, courier, station_operator, operations_admin}
use yitu.Shipments.Views.{
  ShipmentReadView, get_detail, detail_scope, build_detail, is_end_of, has_task_for,
}
use yitu.Store.Rows.{CurrentUser, Shipment, CourierTask}
use yitu.Store.Session.{Session}
use yitu.Store.Steps.{after_read}

-- Whom a shipment is shown to: its customer, an operator of a station at one of its ends, a courier
-- who has a task of it or whose station has one, and the administrators.
abbrev pub may_see : Role → CurrentUser → Shipment → List CourierTask → Bool
may_see customer actor r tasks = r.owner_id == actor.user_id
may_see courier actor r tasks = elim actor.user_station [
  | none ↦ false
  | some station ↦ has_task_for r.id actor station tasks
]
may_see station_operator actor r tasks = elim actor.user_station [
  | none ↦ false
  | some station ↦ is_end_of station r
]
may_see operations_admin actor r tasks = true

find_first-passes :
    {A : Type 0} (p : A → Bool) (xs : List A) {x : A} → find_first p xs ≡ some x → p x ≡ true
find_first-passes p [] h = absurd (ground arith)
find_first-passes p (y ∷ ys) {x} h = ground (arith, find_first-passes p ys {x = x})

abbrev verdict : Shipment → Result (Shipment → Bool) → Bool
verdict r (ok visible) = visible r
verdict r (err _) = false

scope-may_see :
    (role : Role) (actor : CurrentUser) (tasks : List CourierTask) (s : Session) (r : Shipment)
    → verdict r (detail_scope role r.id actor tasks s).0 ≡ may_see role actor r tasks
unfolding detail_scope
scope-may_see customer actor tasks s r = refl
scope-may_see operations_admin actor tasks s r = refl
scope-may_see courier actor tasks s r = elim (Option-cases actor.user_station) [
  | inl n ↦ rw n refl
  | inr (i, f) ↦ rw f refl
]
scope-may_see station_operator actor tasks s r = elim (Option-cases actor.user_station) [
  | inl n ↦ rw n refl
  | inr (i, f) ↦ rw f refl
]

detail_scope-same :
    (role : Role) (k : ℕ) (actor : CurrentUser) (tasks : List CourierTask) (s : Session)
    → (detail_scope role k actor tasks s).1 ≡ s
unfolding detail_scope
detail_scope-same customer k actor tasks s = refl
detail_scope-same operations_admin k actor tasks s = refl
detail_scope-same courier k actor tasks s = elim (Option-cases actor.user_station) [
  | inl n ↦ rw n refl
  | inr (i, f) ↦ rw f refl
]
detail_scope-same station_operator k actor tasks s = elim (Option-cases actor.user_station) [
  | inl n ↦ rw n refl
  | inr (i, f) ↦ rw f refl
]

-- A detail that is returned is of the shipment with the id, which the actor may see: its customer,
-- an operator of a station at one of its ends, a courier who has a task of it or whose station has
-- one, or an administrator. The call writes nothing.
pub get_detail-may_see :
    (k : ℕ) (actor : CurrentUser) (s : Session) {v : ShipmentReadView} {t : Session}
    → get_detail k actor s ≡ (ok (some v), t)
    → (v.of_shipment.id ≡ k) × (may_see actor.role actor v.of_shipment s.tasks ≡ true) × (t ≡ s)
unfolding get_detail build_detail
get_detail-may_see k actor s {v} {t} e =
    after_read (detail_scope actor.role k actor s.tasks) _ s
      (detail_scope-same actor.role k actor s.tasks s) e
      λ visible p e.
        let found = find_first (λ r. (r.id == k) && visible r) s.shipments in
        elim (Option-cases found) [
          | inl n ↦ absurd (ground (arith, e, n))
          | inr (r, f) ↦
              let passes =
                find_first-passes (λ (r : Shipment). (r.id == k) && visible r) s.shipments f in
              let i : r.id ≡ k = ground (arith, passes, eq-of_== r.id k) in
              let shown : visible r ≡ true = ground (arith, passes) in
              let p' : (detail_scope actor.role r.id actor s.tasks s).0 ≡ ok visible = rw i p in
              let may =
                sym (scope-may_see actor.role actor s.tasks s r) ∙ ap (verdict r) p' ∙ shown in
              let view : v.of_shipment ≡ r = ground (arith, e, f) in
              (rw view i, rw view may, ground (arith, e))
        ]
