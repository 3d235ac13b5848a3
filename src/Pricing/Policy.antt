-- ===== src/Pricing/Policy.antt =====
-- backend/src/yitu/pricing/policy.py: the pure price calculation.
--
-- Weights, sizes and the fees of a rule are naturals: `QuoteRequest` wants weights and sizes above
-- zero and `PricingRuleCreate` fees of zero or more, and the case of zero stays. A fee item is an
-- integer, since a discount is negative. A district code is the list of its character codes, which
-- are ASCII. The two methods are enum members, which compare equal to the texts in the source.
pub mod Laws
use Prim.Native.String.{String}
use yitu.Base.{
  ℕ, ◌+◌, ◌-◌, ◌*◌, ◌/◌, max, Bool, true, false, ◌&&◌, ◌||◌, not, Option, none, some, List, [], ◌∷◌,
  ◌++◌, length, all_of, ltb, leb, ◌==◌, if◌then◌else◌,
}
use yitu.Base.Int.{ℤ, pos, negsuc, pos_part, ◌+ℤ◌}
use yitu.Platform.Errors.{Result, ok, err, value_error, ◌>>=◌, ◌>>◌}
use yitu.Shipments.Enums.{
  PickupMethod, door_pickup, station_dropoff, DeliveryMethod, home_delivery, station_pickup,
}

pub record PricingInput : Type 0 where
  pub origin_district_code : List ℕ
  pub destination_district_code : List ℕ
  pub pickup_method : PickupMethod
  pub delivery_method : DeliveryMethod
  pub actual_weight_grams : ℕ
  pub length_cm : ℕ
  pub width_cm : ℕ
  pub height_cm : ℕ

pub data RouteCode : Type 0 where
  same_city bj_sh cross_region : RouteCode

pub record PricingRuleData : Type 0 where
  pub version : String
  pub route : RouteCode
  pub base_fee_cents : ℕ
  pub additional_fee_cents : ℕ
  pub remote_surcharge_cents : ℕ

pub data FeeCode : Type 0 where
  base_fee additional_weight pickup_service station_pickup_discount remote_surcharge : FeeCode

pub record FeeItem : Type 0 where
  pub fee_code : FeeCode
  pub amount_cents : ℤ

pub record QuoteCalculation : Type 0 where
  pub rule_version : String
  pub quoted_route : RouteCode
  pub volume_weight_grams : ℕ
  pub billable_weight_grams : ℕ
  pub items : List FeeItem
  pub total_cents : ℕ

-- `DEFAULT_RULES`
abbrev pub default_rules : RouteCode → PricingRuleData
default_rules same_city = record {
  version = "pricing-demo-v1";
  route = same_city;
  base_fee_cents = 800;
  additional_fee_cents = 150;
  remote_surcharge_cents = 0;
}
default_rules bj_sh = record {
  version = "pricing-demo-v1";
  route = bj_sh;
  base_fee_cents = 1500;
  additional_fee_cents = 500;
  remote_surcharge_cents = 0;
}
default_rules cross_region = record {
  version = "pricing-demo-v1";
  route = cross_region;
  base_fee_cents = 1800;
  additional_fee_cents = 700;
  remote_surcharge_cents = 0;
}

-- `str.isdigit` on ASCII text
abbrev pub is_digit : ℕ → Bool
is_digit c = leb b'0' c && leb c b'9'

abbrev pub is_code : List ℕ → Bool
is_code s = (length s == 6) && all_of is_digit s

-- `s[:2] == t[:2]`
abbrev pub same_province : List ℕ → List ℕ → Bool
same_province (a ∷ b ∷ s) (c ∷ d ∷ t) = (a == c) && (b == d)
same_province _ _ = false

-- `s[:2]` is the two digits
abbrev pub has_province : ℕ → ℕ → List ℕ → Bool
has_province x y (a ∷ b ∷ s) = (a == x) && (b == y)
has_province x y _ = false

abbrev pub beijing : List ℕ → Bool
beijing = has_province b'1' b'1'

abbrev pub shanghai : List ℕ → Bool
shanghai = has_province b'3' b'1'

unfoldable pub route_code : List ℕ → List ℕ → Result RouteCode
route_code origin destination =
    if not (is_code origin && is_code destination)
    then err value_error
    else if same_province origin destination
    then ok same_city
    else if (beijing origin && shanghai destination) || (shanghai origin && beijing destination)
    then ok bj_sh
    else ok cross_region

-- `_validate_input`
unfoldable pub validate_input : PricingInput → Result (Unit {0})
validate_input payload =
    if payload.actual_weight_grams == 0
      || (payload.length_cm == 0 || (payload.width_cm == 0 || payload.height_cm == 0))
    then err value_error
    else ok tt

-- `Decimal(…) / 8`, rounded up
unfoldable pub volume_weight : PricingInput → ℕ
volume_weight payload = (payload.length_cm * payload.width_cm * payload.height_cm + 7) / 8

unfoldable pub billable_weight : PricingInput → ℕ
unfolding volume_weight
billable_weight payload = max payload.actual_weight_grams (volume_weight payload)

-- `max(0, ceil((w - 1000) / 500))`; for a weight of at most 1000 both sides are 0
unfoldable pub billed_units : ℕ → ℕ
billed_units w = (w - 1000 + 499) / 500

abbrev pub fee : FeeCode → ℕ → FeeItem
fee c n = record { fee_code = c; amount_cents = pos n }

abbrev pub pickup_items : PickupMethod → List FeeItem
pickup_items door_pickup = fee pickup_service 300 ∷ []
pickup_items station_dropoff = []

abbrev pub discount_items : DeliveryMethod → List FeeItem
discount_items station_pickup =
    record { fee_code = station_pickup_discount; amount_cents = negsuc 99 } ∷ []
discount_items home_delivery = []

unfoldable pub fee_items : PricingInput → PricingRuleData → List FeeItem
fee_items payload rule =
    let units = billed_units (billable_weight payload) in
    fee base_fee rule.base_fee_cents
    ∷ ((if units == 0 then [] else fee additional_weight (units * rule.additional_fee_cents) ∷ [])
        ++ (pickup_items payload.pickup_method
            ++ (discount_items payload.delivery_method
                ++ (if rule.remote_surcharge_cents == 0
                    then []
                    else fee remote_surcharge rule.remote_surcharge_cents ∷ []))))

-- `sum(item.amount_cents for item in items)`
unfoldable pub sum_amounts : List FeeItem → ℤ
sum_amounts [] = pos 0
sum_amounts (i ∷ is) = i.amount_cents +ℤ sum_amounts is

abbrev pub select_rule : Option PricingRuleData → RouteCode → PricingRuleData
select_rule (some rule) route = rule
select_rule none route = default_rules route

unfoldable pub calculate_quote : PricingInput → Option PricingRuleData → Result QuoteCalculation
calculate_quote payload rule = do
  validate_input payload
  selected_route ← route_code payload.origin_district_code payload.destination_district_code
  let selected_rule = select_rule rule selected_route
  let items = fee_items payload selected_rule
  ok (record {
    rule_version = selected_rule.version;
    quoted_route = selected_route;
    volume_weight_grams = volume_weight payload;
    billable_weight_grams = billable_weight payload;
    items = items;
    total_cents = pos_part (sum_amounts items);
  })
