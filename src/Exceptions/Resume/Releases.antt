-- ===== src/Exceptions/Resume/Releases.antt =====
-- The effect of a resume on the holds (backend/src/yitu/exceptions/service.py).
use yitu.Base.{
  ℕ, ◌≡◌, refl, Bool, true, false, ◌&&◌, List, [], ◌∷◌, map, length, select, all_of, ==_self, arith,
  ◌≤◌,
}
use yitu.Exceptions.Resume.{active_holds, is_active_hold, is_case_hold, source_ids}
use yitu.Shipments.Control.{contains}
use yitu.Shipments.Control.Holds.{other_hold}
use yitu.Store.Rows.{ShipmentHold}

module _ {A : Type 0} where
  length-select : (p : A → Bool) (xs : List A) → length (select p xs) ≤ length xs
  length-select p [] = omega arith
  length-select p (x ∷ xs) = ground (arith, length-select p xs)

  -- A selection that keeps as many is the list itself.
  select_whole : (p : A → Bool) (xs : List A) → length (select p xs) ≡ length xs → select p xs ≡ xs
  select_whole p [] h = refl
  select_whole p (x ∷ xs) h = ground (arith, select_whole p xs, length-select p xs)

abbrev id_in : List ℕ → ShipmentHold → Bool
id_in ids h = contains h.source_id ids

-- Whether each active hold of the shipment comes from a case with one of the ids.
abbrev covered : ℕ → List ℕ → List ShipmentHold → Bool
covered k ids hs = all_of (λ h. is_case_hold h && id_in ids h) (select (is_active_hold k) hs)

covered-other_hold :
    (k : ℕ) (ids : List ℕ) (hs : List ShipmentHold)
    → covered k ids hs ≡ true
    → other_hold k "EXCEPTION_CASE" ids hs ≡ false
unfolding other_hold
covered-other_hold k ids [] c = refl
covered-other_hold k ids (h ∷ hs) c = ground (arith, covered-other_hold k ids hs)

all_in_suc :
    (i : ℕ) (ids : List ℕ) (hs : List ShipmentHold)
    → all_of (id_in ids) hs ≡ true
    → all_of (id_in (i ∷ ids)) hs ≡ true
all_in_suc i ids [] h = refl
all_in_suc i ids (x ∷ xs) h = ground (arith, all_in_suc i ids xs)

all_in_own :
    (hs : List ShipmentHold) → all_of (id_in (map (λ (h : ShipmentHold). h.source_id) hs)) hs ≡ true
all_in_own [] = refl
all_in_own (x ∷ xs) = ground (
  arith,
  ==_self x.source_id,
  all_in_own xs,
  all_in_suc x.source_id (map (λ (h : ShipmentHold). h.source_id) xs) xs,
)

all_case_holds :
    (hs : List ShipmentHold)
    → length (select is_case_hold hs) ≡ length hs
    → all_of is_case_hold hs ≡ true
all_case_holds [] h = refl
all_case_holds (x ∷ xs) h = ground (arith, all_case_holds xs, length-select is_case_hold xs)

all_both :
    (ids : List ℕ) (hs : List ShipmentHold)
    → all_of is_case_hold hs ≡ true
    → all_of (id_in ids) hs ≡ true
    → all_of (λ h. is_case_hold h && id_in ids h) hs ≡ true
all_both ids [] a b = refl
all_both ids (x ∷ xs) a b = ground (arith, all_both ids xs)

length-map :
    (hs : List ShipmentHold) → length (map (λ (h : ShipmentHold). h.source_id) hs) ≡ length hs
length-map [] = refl
length-map (h ∷ hs) = ground (arith, length-map hs)

own_covered :
    (hs : List ShipmentHold)
    → length (source_ids hs) ≡ length hs
    → all_of (λ h. is_case_hold h && id_in (source_ids hs) h) hs ≡ true
unfolding source_ids
own_covered hs e =
    let n : length (select is_case_hold hs) ≡ length hs =
      ground (arith, length-map (select is_case_hold hs)) in
    rw (select_whole is_case_hold hs n) (
      all_both (map (λ (h : ShipmentHold). h.source_id) hs) hs (all_case_holds hs n)
        (all_in_own hs))

-- A release for all the active holds of a shipment, if they all come from cases, leaves none.
pub release_covers :
    (k : ℕ) (hs : List ShipmentHold)
    → length (source_ids (active_holds k hs)) ≡ length (active_holds k hs)
    → other_hold k "EXCEPTION_CASE" (source_ids (active_holds k hs)) hs ≡ false
unfolding active_holds
release_covers k hs e =
    covered-other_hold k (source_ids (active_holds k hs)) hs (own_covered (active_holds k hs) e)
