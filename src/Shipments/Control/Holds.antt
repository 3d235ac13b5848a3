-- ===== src/Shipments/Control/Holds.antt =====
-- Placing and releasing a hold (backend/src/yitu/shipments/control.py).
use Prim.Native.String.{String}
use yitu.Base.{
  ℕ, ◌≡◌, refl, Bool, true, ◌&&◌, not, none, inl, inr, List, [], ◌∷◌, ◌++◌, any_of, ◌==◌, arith,
  update_where, Option-cases,
}
use yitu.Platform.Errors.{ok, err, shipment_fulfillment_blocked}
use yitu.Platform.Json.{Key}
use yitu.Shipments.Control.{
  lock_shipment, is_blocked, lock_and_assert_fulfillment_allowed, find_source, place_exception_hold,
  release_exception_holds, is_released, released, assert_resume_preconditions, require_facts,
  require_active_task,
}
use yitu.Shipments.Enums.{ShipmentStatus}
use yitu.Store.Queries.{find_shipment, find_shipment-id}
use yitu.Store.Rows.{CurrentUser, Shipment, ShipmentHold}
use yitu.Store.Session.{Session}

-- Whether an active hold stands that a release is not for.
unfoldable pub other_hold : ℕ → String → List ℕ → List ShipmentHold → Bool
other_hold k source ids =
    any_of λ h. ((h.hold_shipment == k) && h.active) && not (is_released k source ids h)

is_blocked-append :
    (k : ℕ) (h : ShipmentHold) (hs : List ShipmentHold)
    → h.hold_shipment ≡ k
    → h.active ≡ true
    → is_blocked k (hs ++ h ∷ []) ≡ true
unfolding is_blocked
is_blocked-append k h [] p a = ground arith
is_blocked-append k h (x ∷ hs) p a = ground (arith, is_blocked-append k h hs p a)

is_blocked-release :
    (k : ℕ) (source : String) (ids : List ℕ) (actor : CurrentUser) (now : ℕ) (key : Key)
    (hs : List ShipmentHold)
    → is_blocked k (update_where (is_released k source ids) (released actor now key) hs)
      ≡ other_hold k source ids hs
unfolding is_blocked other_hold
is_blocked-release k source ids actor now key [] = refl
is_blocked-release k source ids actor now key (h ∷ hs) =
    ground (arith, is_blocked-release k source ids actor now key hs)

module _ (k : ℕ) (source : String) (actor : CurrentUser) (key : Key) (s : Session) where
  -- A hold that is placed for a source without one blocks the shipment: from then on the lock
  -- for fulfilment raises; the hold that is returned is active and stands on the shipment.
  pub place_blocks :
      (source_id : ℕ) (reason : Key) {h : ShipmentHold} {t : Session}
      → find_source source source_id s.holds ≡ none
      → place_exception_hold k source source_id reason actor key s ≡ (ok h, t)
      → (lock_and_assert_fulfillment_allowed k t ≡ (err shipment_fulfillment_blocked, t))
        × (h.active ≡ true)
        × (h.hold_shipment ≡ k)
  unfolding place_exception_hold lock_and_assert_fulfillment_allowed lock_shipment
  place_blocks source_id reason {h} {t} n e = elim (Option-cases (find_shipment k s.shipments)) [
    | inl f ↦ absurd (ground arith)
    | inr (r, f) ↦
        let id : r.id ≡ k = find_shipment-id k s.shipments f in
        (ground (arith, is_blocked-append k h s.holds), ground arith, ground arith)
  ]

  -- A release for some sources leaves the shipment blocked exactly when an active hold stands on it
  -- that the release is not for.
  pub release_unblocks :
      (i : ℕ) (is : List ℕ) {hs : List ShipmentHold} {t : Session}
      → release_exception_holds k source (i ∷ is) actor key s ≡ (ok hs, t)
      → is_blocked k t.holds ≡ other_hold k source (i ∷ is) s.holds
  unfolding release_exception_holds lock_shipment
  release_unblocks i is {hs} {t} e =
      ground (arith, is_blocked-release k source (i ∷ is) actor s.now key s.holds)

other_hold-nil :
    (k : ℕ) (source : String) (hs : List ShipmentHold) → other_hold k source [] hs ≡ is_blocked k hs
unfolding is_blocked other_hold
other_hold-nil k source [] = refl
other_hold-nil k source (h ∷ hs) = ground (arith, other_hold-nil k source hs)

-- The same for any sources, none included; a release changes only the holds.
pub release-is_blocked :
    (k : ℕ) (source : String) (ids : List ℕ) (actor : CurrentUser) (key : Key) (s : Session)
    {hs : List ShipmentHold}
    → (release_exception_holds k source ids actor key s).0 ≡ ok hs
    → let t = (release_exception_holds k source ids actor key s).1 in
      (is_blocked k t.holds ≡ other_hold k source ids s.holds) × (t ≡ record s { holds = t.holds })
unfolding release_exception_holds lock_shipment
release-is_blocked k source [] actor key s {hs} e =
    (ground (arith, other_hold-nil k source s.holds), ground arith)
release-is_blocked k source (i ∷ is) actor key s {hs} e =
    (ground (arith, is_blocked-release k source (i ∷ is) actor s.now key s.holds), ground arith)

-- The check before a resume writes nothing.
pub assert_resume-same :
    (x : Shipment) (target : ShipmentStatus) (s : Session)
    → (assert_resume_preconditions x target s).1 ≡ s
unfolding assert_resume_preconditions require_facts require_active_task
assert_resume-same x target s = ground arith

pub lock_shipment-same : (k : ℕ) (s : Session) → (lock_shipment k s).1 ≡ s
unfolding lock_shipment
lock_shipment-same k s = ground arith
