-- ===== src/Pricing/Policy/Laws.antt =====
-- What the price calculation of backend/src/yitu/pricing/policy.py charges.
use native.Mathlib.Nat.{mul-le-mul, le_refl}
use yitu.Base.{
  ℕ, ◌+◌, ◌-◌, ◌*◌, ◌≤◌, ◌<◌, ◌≡◌, refl, ap, ◌∙◌, Bool, true, false, ◌&&◌, Option, some, List, [],
  ◌∷◌, ◌⊎◌, inl, inr, ◌==◌, zero, suc, if◌then◌else◌, ◌++◌, not, ◌||◌, arith, ◌↔◌, Bool-cases,
}
use yitu.Base.Int.{pos_part, int_laws}
use yitu.Platform.Errors.{Result, ok, err, value_error, is_ok, ◌>>=◌, Result-cases}
use yitu.Shipments.Enums.{
  PickupMethod, door_pickup, station_dropoff, DeliveryMethod, home_delivery, station_pickup,
}
use yitu.Pricing.Policy.{
  PricingInput, PricingRuleData, QuoteCalculation, FeeItem, calculate_quote, route_code, fee_items,
  sum_amounts, volume_weight, billable_weight, billed_units, validate_input, is_code, same_province,
  beijing, shanghai, RouteCode, same_city, bj_sh, cross_region, fee, base_fee, additional_weight,
  remote_surcharge, pickup_items, discount_items,
}

-- The units billed are the fewest half kilograms that cover the weight over one kilogram.
pub billed_units_least :
    (w : ℕ)
    → (w ≤ 1000 + 500 * billed_units w) × ((k : ℕ) → w ≤ 1000 + 500 * k → billed_units w ≤ k)
unfolding billed_units
billed_units_least w = (omega arith, λ k h. omega arith)

-- The volume weight is the size in cubic centimetres divided by 8 and rounded up, and the billable
-- weight is the least that is neither under the actual nor under the volume weight.
pub billable_weight_bounds :
    (p : PricingInput)
    → let size = p.length_cm * p.width_cm * p.height_cm in
      (size ≤ 8 * volume_weight p)
      × (8 * volume_weight p < size + 8)
      × (p.actual_weight_grams ≤ billable_weight p)
      × (volume_weight p ≤ billable_weight p)
      × ((billable_weight p ≡ p.actual_weight_grams) ⊎ (billable_weight p ≡ volume_weight p))
unfolding billable_weight
billable_weight_bounds p = ground arith

abbrev pub pickup_fee : PickupMethod → ℕ
pickup_fee door_pickup = 300
pickup_fee station_dropoff = 0

abbrev pub pickup_discount : DeliveryMethod → ℕ
pickup_discount station_pickup = 100
pickup_discount home_delivery = 0

-- What a parcel is charged before the discount.
abbrev pub charges : PricingInput → PricingRuleData → ℕ
charges p r =
    r.base_fee_cents
    + billed_units (billable_weight p) * r.additional_fee_cents
    + pickup_fee p.pickup_method
    + r.remote_surcharge_cents

-- The items, by whether there is no unit to bill (`nu`) and no surcharge (`nr`).
abbrev items_for : ℕ → Bool → ℕ → Bool → ℕ → PickupMethod → DeliveryMethod → List FeeItem
items_for b nu x nr r m d =
    fee base_fee b
    ∷ ((if nu then [] else fee additional_weight x ∷ [])
        ++ (pickup_items m
            ++ (discount_items d ++ (if nr then [] else fee remote_surcharge r ∷ []))))

sum-items_for :
    (b : ℕ) (nu : Bool) (x : ℕ) (nr : Bool) (r : ℕ) (m : PickupMethod) (d : DeliveryMethod)
    → pos_part (sum_amounts (items_for b nu x nr r m d))
      ≡ b + (if nu then 0 else x) + pickup_fee m + (if nr then 0 else r) - pickup_discount d
unfolding sum_amounts
sum-items_for b true x true r door_pickup home_delivery = omega int_laws
sum-items_for b true x true r door_pickup station_pickup = omega int_laws
sum-items_for b true x true r station_dropoff home_delivery = omega int_laws
sum-items_for b true x true r station_dropoff station_pickup = omega int_laws
sum-items_for b true x false r door_pickup home_delivery = omega int_laws
sum-items_for b true x false r door_pickup station_pickup = omega int_laws
sum-items_for b true x false r station_dropoff home_delivery = omega int_laws
sum-items_for b true x false r station_dropoff station_pickup = omega int_laws
sum-items_for b false x true r door_pickup home_delivery = omega int_laws
sum-items_for b false x true r door_pickup station_pickup = omega int_laws
sum-items_for b false x true r station_dropoff home_delivery = omega int_laws
sum-items_for b false x true r station_dropoff station_pickup = omega int_laws
sum-items_for b false x false r door_pickup home_delivery = omega int_laws
sum-items_for b false x false r door_pickup station_pickup = omega int_laws
sum-items_for b false x false r station_dropoff home_delivery = omega int_laws
sum-items_for b false x false r station_dropoff station_pickup = omega int_laws

zero_unless : (n k : ℕ) → (if n == 0 then 0 else n * k) ≡ n * k
zero_unless zero k = omega arith
zero_unless (suc n) k = elim (Bool-cases (suc n == 0)) [
  | inl e ↦ absurd (ground arith)
  | inr e ↦ rw e
]

self_unless : (n : ℕ) → (if n == 0 then 0 else n) ≡ n
self_unless n = ground arith

sum-fee_items :
    (p : PricingInput) (r : PricingRuleData)
    → pos_part (sum_amounts (fee_items p r)) ≡ charges p r - pickup_discount p.delivery_method
unfolding fee_items
sum-fee_items p r =
    let u = billed_units (billable_weight p) in
    let s = r.remote_surcharge_cents in
    sum-items_for r.base_fee_cents (u == 0) (u * r.additional_fee_cents) (s == 0) s p.pickup_method
      p.delivery_method
    ∙ rw (zero_unless u r.additional_fee_cents, self_unless s)

same_province_comm : (s t : List ℕ) → same_province s t ≡ same_province t s
same_province_comm [] [] = refl
same_province_comm [] (c ∷ []) = refl
same_province_comm [] (c ∷ d ∷ t) = refl
same_province_comm (a ∷ []) [] = refl
same_province_comm (a ∷ []) (c ∷ []) = refl
same_province_comm (a ∷ []) (c ∷ d ∷ t) = refl
same_province_comm (a ∷ b ∷ s) [] = refl
same_province_comm (a ∷ b ∷ s) (c ∷ []) = refl
same_province_comm (a ∷ b ∷ s) (c ∷ d ∷ t) = ground arith

-- How the tests decide the route.
abbrev decide_route : Bool → Bool → Bool → Bool → Bool → Bool → Bool → Result RouteCode
decide_route v w same bs st ss bt =
    if not (v && w)
    then err value_error
    else if same
    then ok same_city
    else if (bs && st) || (ss && bt)
    then ok bj_sh
    else ok cross_region

decide_route_comm :
    (v w same bs st ss bt : Bool)
    → decide_route v w same bs st ss bt ≡ decide_route w v same bt ss st bs
decide_route_comm v w same bs st ss bt = ground arith

-- The route does not depend on the direction.
pub route_code_comm : (s t : List ℕ) → route_code s t ≡ route_code t s
unfolding route_code
route_code_comm s t = rw (same_province_comm s t) (
    decide_route_comm (is_code s) (is_code t) (same_province t s) (beijing s) (shanghai t)
      (shanghai s) (beijing t))

route_code-is_ok : (s t : List ℕ) → is_ok (route_code s t) ≡ (is_code s && is_code t)
unfolding route_code
route_code-is_ok s t = go (is_code s) (is_code t) (same_province s t) _
  where
    go :
        (v w same x : Bool)
        → is_ok (
            if not (v && w)
            then err value_error
            else if same
            then ok same_city
            else if x
            then ok bj_sh
            else ok cross_region)
          ≡ (v && w)
    go v w same x = ground arith

is_ok->>= :
    {A B : Type 0} (m : Result A) (f : A → Result B)
    → ((a : A) → is_ok (f a) ≡ true)
    → is_ok (m >>= f) ≡ is_ok m
is_ok->>= (ok a) f h = h a
is_ok->>= (err e) f h = refl

calculate_quote-is_ok :
    (p : PricingInput) (r : Option PricingRuleData)
    → is_ok (calculate_quote p r) ≡ (
        is_ok (validate_input p)
        && is_ok (route_code p.origin_district_code p.destination_district_code))
unfolding calculate_quote
calculate_quote-is_ok p r = elim (Result-cases (validate_input p)) [
  | inl (a, e) ↦
      rw e (is_ok->>= (route_code p.origin_district_code p.destination_district_code) _ (λ a. refl))
  | inr (x, e) ↦ rw e
]

-- A quote is returned exactly for a parcel with a weight and sizes above zero and two district codes
-- of six digits.
pub calculate_quote-is_ok_iff :
    (p : PricingInput) (r : Option PricingRuleData)
    → (is_ok (calculate_quote p r) ≡ true) ↔ (
        (0 < p.actual_weight_grams)
        × (0 < p.length_cm)
        × (0 < p.width_cm)
        × (0 < p.height_cm)
        × (is_code p.origin_district_code ≡ true)
        × (is_code p.destination_district_code ≡ true))
unfolding validate_input
calculate_quote-is_ok_iff p r =
    let e = calculate_quote-is_ok p r in
    let f = route_code-is_ok p.origin_district_code p.destination_district_code in
    (λ h. ground arith, λ h. ground arith)

total_charges :
    (p : PricingInput) (r : PricingRuleData) {q : QuoteCalculation}
    → calculate_quote p (some r) ≡ ok q
    → q.total_cents ≡ charges p r - pickup_discount p.delivery_method
unfolding calculate_quote
total_charges p r h = ground (arith, sum-fee_items p r)

billable_grams :
    (p : PricingInput) (r : PricingRuleData) {q : QuoteCalculation}
    → calculate_quote p (some r) ≡ ok q
    → q.billable_weight_grams ≡ billable_weight p
unfolding calculate_quote
billable_grams p r h = ground arith

-- The weight that is charged for: the least number of grams that is neither under the actual weight
-- nor, taken eight times, under the size in cubic centimetres.
abbrev pub IsBillable : PricingInput → ℕ → Type 0
IsBillable p w =
    (p.actual_weight_grams ≤ w)
    × (p.length_cm * p.width_cm * p.height_cm ≤ 8 * w)
    × ((v : ℕ) → p.actual_weight_grams ≤ v → p.length_cm * p.width_cm * p.height_cm ≤ 8 * v → w ≤ v)

-- The units that are charged for: the fewest half kilograms that cover what is over one kilogram.
abbrev pub IsUnits : ℕ → ℕ → Type 0
IsUnits w k = (w ≤ 1000 + 500 * k) × ((n : ℕ) → w ≤ 1000 + 500 * n → k ≤ n)

billable_weight-IsBillable : (p : PricingInput) → IsBillable p (billable_weight p)
unfolding billable_weight volume_weight
billable_weight-IsBillable p = (omega arith, omega arith, λ v a b. omega arith)

-- The total of a returned quote is the base fee, the fee of each unit, the pickup service and the
-- remote surcharge, less the station pickup discount, and not under zero. The units are the fewest
-- half kilograms that cover the billable weight over one kilogram, and the billable weight, which
-- the quote tells, is the least that the actual weight and an eighth of the size allow.
pub calculate_quote-total :
    (p : PricingInput) (r : PricingRuleData) {q : QuoteCalculation}
    → calculate_quote p (some r) ≡ ok q
    → (k : ℕ) × IsBillable p q.billable_weight_grams
      × IsUnits q.billable_weight_grams k
      × (q.total_cents
          ≡ r.base_fee_cents
            + k * r.additional_fee_cents
            + pickup_fee p.pickup_method
            + r.remote_surcharge_cents
            - pickup_discount p.delivery_method)
calculate_quote-total p r {q} h =
    let same = billable_grams p r h in
    (
      billed_units (billable_weight p),
      rw same (billable_weight-IsBillable p),
      rw same (billed_units_least (billable_weight p)),
      total_charges p r h,
    )

volume_weight_mono :
    (p p' : PricingInput)
    → p.length_cm ≤ p'.length_cm
    → p.width_cm ≤ p'.width_cm
    → p.height_cm ≤ p'.height_cm
    → volume_weight p ≤ volume_weight p'
unfolding volume_weight
volume_weight_mono p p' l b h = omega (arith, mul-le-mul (mul-le-mul l b) h)

billable_weight_mono :
    (p p' : PricingInput)
    → p.actual_weight_grams ≤ p'.actual_weight_grams
    → volume_weight p ≤ volume_weight p'
    → billable_weight p ≤ billable_weight p'
unfolding billable_weight
billable_weight_mono p p' w v = omega arith

billed_units_mono : (v w : ℕ) → v ≤ w → billed_units v ≤ billed_units w
unfolding billed_units
billed_units_mono v w h = omega arith

charges_mono :
    (p p' : PricingInput) (r : PricingRuleData)
    → billable_weight p ≤ billable_weight p'
    → p.pickup_method ≡ p'.pickup_method
    → charges p r ≤ charges p' r
charges_mono p p' r h em =
    let k = mul-le-mul {m₁ = r.additional_fee_cents} (billed_units_mono _ _ h) (le_refl _) in
    omega (arith, k, ap pickup_fee em)

-- A heavier or larger parcel never costs less, under the same rule and with the same services.
pub calculate_quote_mono :
    (p p' : PricingInput) (r : PricingRuleData) {q q' : QuoteCalculation}
    → p.actual_weight_grams ≤ p'.actual_weight_grams
    → p.length_cm ≤ p'.length_cm
    → p.width_cm ≤ p'.width_cm
    → p.height_cm ≤ p'.height_cm
    → p.pickup_method ≡ p'.pickup_method
    → p.delivery_method ≡ p'.delivery_method
    → calculate_quote p (some r) ≡ ok q
    → calculate_quote p' (some r) ≡ ok q'
    → q.total_cents ≤ q'.total_cents
calculate_quote_mono p p' r {q} {q'} w l b h em ed e e' =
    let v = volume_weight_mono p p' l b h in
    let k = charges_mono p p' r (billable_weight_mono p p' w v) em in
    omega (arith, total_charges p r e, total_charges p' r e', k, ap pickup_discount ed)
