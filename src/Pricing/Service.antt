-- ===== src/Pricing/Service.antt =====
-- backend/src/yitu/pricing/service.py: quotes under the rule in force, quotes after a reweigh, and
-- the rules. The order of the rows is that of their first moment of force, the newest first.
pub mod Rules
pub mod Quotes
use Prim.Native.String.{String}
use yitu.Base.{
  ℕ, ◌+◌, Bool, true, false, ◌&&◌, ◌||◌, not, Option, none, some, List, [], ◌∷◌, ◌++◌, select,
  any_of, ltb, leb, ◌==◌, if◌then◌else◌,
}
use yitu.Base.Sorting.{sort_by, first_of}
use yitu.Identity.{require_role, require_resource_owner}
use yitu.Platform.Errors.{
  Result, err, ok, quote_not_found, pricing_rule_not_found, route_not_supported,
}
use yitu.Platform.Idempotency.{execute}
use yitu.Platform.Json.{Key, lit, ident, ◌⊹◌, Object, str, number}
use yitu.Pricing.Policy.{
  PricingInput, PricingRuleData, RouteCode, same_city, bj_sh, cross_region, QuoteCalculation,
  route_code, calculate_quote,
}
use yitu.Shipments.Enums.{customer}
use yitu.Sla.Service.{lift}
use yitu.Store.Catalog.{PricingRule, QuoteSnapshot}
use yitu.Store.Queries.{find_quote, find_pricing_rule}
use yitu.Store.Rows.{CurrentUser, IdempotencyResponse}
use yitu.Store.Session.{Action, new_id, modify, gets, or_raise, pure, ◌>>=◌, ◌>>◌}

-- `_rule_data`
abbrev pub rule_data : PricingRule → PricingRuleData
rule_data rule = record {
  version = rule.pricing_version;
  route = rule.pricing_route;
  base_fee_cents = rule.base_cents;
  additional_fee_cents = rule.additional_cents;
  remote_surcharge_cents = rule.remote_cents;
}

abbrev pub route_eq : RouteCode → RouteCode → Bool
route_eq same_city same_city = true
route_eq bj_sh bj_sh = true
route_eq cross_region cross_region = true
route_eq _ _ = false

abbrev pub ends_after : Option ℕ → ℕ → Bool
ends_after none now = true
ends_after (some t) now = ltb now t

abbrev pub in_force : ℕ → PricingRule → Bool
in_force now rule = leb rule.valid_from now && ends_after rule.valid_to now

abbrev pub newer : PricingRule → PricingRule → Bool
newer x y = leb y.valid_from x.valid_from

-- The rows of `_active_rule`; `session.scalar` gives the first.
unfoldable pub active_rules : RouteCode → ℕ → List PricingRule → List PricingRule
active_rules code now rules =
    sort_by newer (select (λ r. route_eq r.pricing_route code && in_force now r) rules)

unfoldable pub active_rule : List ℕ → List ℕ → Action PricingRule
active_rule origin destination = do
  code ← lift (route_code origin destination)
  or_raise (← gets (λ s. first_of (active_rules code s.now s.pricing_rules))) route_not_supported

-- `latest.setdefault(rule.route_code, rule)` for each row: the first rule of each route.
unfoldable pub first_per_route : List RouteCode → List PricingRule → List PricingRule
first_per_route seen [] = []
first_per_route seen (r ∷ rs) = elim (any_of (λ c. route_eq r.pricing_route c) seen) [
  | true ↦ first_per_route seen rs
  | false ↦ r ∷ first_per_route (r.pricing_route ∷ seen) rs
]

unfoldable pub active_list : ℕ → List PricingRule → List PricingRule
active_list now rules = first_per_route [] (sort_by newer (select (in_force now) rules))

unfoldable pub list_active_rules : Action (List PricingRule)
list_active_rules = gets (λ s. active_list s.now s.pricing_rules)

unfoldable pub list_rules : Action (List PricingRule)
list_rules = gets (λ s. sort_by newer s.pricing_rules)

-- The row of a published rule; its id is given by the session.
unfoldable pub create_rule : String → RouteCode → ℕ → ℕ → ℕ → ℕ → Option ℕ → Action PricingRule
create_rule version code base additional remote from to = do
  rule_id ← new_id
  let rule : PricingRule = record {
    pricing_rule_id = rule_id;
    pricing_version = version;
    pricing_route = code;
    base_cents = base;
    additional_cents = additional;
    remote_cents = remote;
    valid_from = from;
    valid_to = to;
  }
  modify (λ s. record s { pricing_rules = s.pricing_rules ++ rule ∷ [] })
  pure rule

-- The row of a calculated price.
abbrev pub snapshot_of :
    ℕ → ℕ → PricingRule → Option ℕ → PricingInput → QuoteCalculation → ℕ → QuoteSnapshot
snapshot_of quote_id owner rule source payload c now = record {
  quote_row = quote_id;
  quote_owner = owner;
  quote_rule = rule.pricing_rule_id;
  source_quote = source;
  quote_version = rule.pricing_version;
  quote_input = payload;
  quote_items = c.items;
  quote_volume_grams = c.volume_weight_grams;
  quote_billable_grams = c.billable_weight_grams;
  quote_total_cents = c.total_cents;
  quoted_at = now;
}

unfoldable pub add_quote :
    ℕ → PricingRule → Option ℕ → PricingInput → QuoteCalculation → Action QuoteSnapshot
add_quote owner rule source payload c = do
  quote_id ← new_id
  now ← gets (λ s. s.now)
  modify (λ s. record s {
    quotes = s.quotes ++ snapshot_of quote_id owner rule source payload c now ∷ [];
  })
  pure (snapshot_of quote_id owner rule source payload c now)

-- `QuoteView`, less the input and the fee items, which stay as the row has them.
abbrev pub quote_view : QuoteSnapshot → Object
quote_view q =
    ("id", str (ident q.quote_row))
    ∷ ("rule_version", str (lit q.quote_version))
    ∷ ("volume_weight_grams", number q.quote_volume_grams)
    ∷ ("billable_weight_grams", number q.quote_billable_grams)
    ∷ ("total_cents", number q.quote_total_cents)
    ∷ ("created_at", number q.quoted_at)
    ∷ []

unfoldable pub quote_operation : PricingInput → CurrentUser → Action IdempotencyResponse
quote_operation request actor = do
  rule ← active_rule request.origin_district_code request.destination_district_code
  calculation ← lift (calculate_quote request (some (rule_data rule)))
  snapshot ← add_quote actor.user_id rule none request calculation
  pure (record { status_code = 201; body = quote_view snapshot })

unfoldable pub quote : PricingInput → CurrentUser → Key → ℕ → Action IdempotencyResponse
quote request actor key request_hash = do
  require_role customer actor
  execute (lit "pricing:quote:" ⊹ ident actor.user_id) key request_hash
      (quote_operation request actor)

-- `ReweighRequest`
pub record Measures : Type 0 where
  pub weight : ℕ
  pub length : ℕ
  pub width : ℕ
  pub height : ℕ

-- `model_copy(update=request.model_dump())`
abbrev pub remeasured : PricingInput → Measures → PricingInput
remeasured payload m = record payload {
  actual_weight_grams = m.weight;
  length_cm = m.length;
  width_cm = m.width;
  height_cm = m.height;
}

unfoldable pub reweigh : ℕ → Measures → CurrentUser → Action QuoteSnapshot
reweigh quote_id measures actor = do
  existing ← or_raise (← gets (λ s. find_quote quote_id s.quotes)) quote_not_found
  require_resource_owner existing.quote_owner actor
  rule ←
      or_raise (← gets (λ s. find_pricing_rule existing.quote_rule s.pricing_rules))
        pricing_rule_not_found
  calculation ←
      lift (calculate_quote (remeasured existing.quote_input measures) (some (rule_data rule)))
  add_quote existing.quote_owner rule (some existing.quote_row)
      (remeasured existing.quote_input measures) calculation
