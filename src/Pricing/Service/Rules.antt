-- ===== src/Pricing/Service/Rules.antt =====
-- The rule that prices a route (backend/src/yitu/pricing/service.py).
use yitu.Base.{Bool}
use yitu.Pricing.Policy.{RouteCode}
use yitu.Pricing.Service.{route_eq}
use yitu.Store.Catalog.{PricingRule}

abbrev pub is_on : RouteCode → PricingRule → Bool
is_on code r = route_eq r.pricing_route code
