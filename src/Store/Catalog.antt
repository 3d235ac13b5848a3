-- ===== src/Store/Catalog.antt =====
-- The rows of users, stations, addresses and prices, and the declared package of a shipment:
-- backend/src/yitu/identity/models.py, stations/models.py, addresses/models.py, pricing/models.py
-- and shipments/models.py. Names, telephone numbers and the details of an address, which no
-- modelled code reads, are left out.
use Prim.Native.String.{String}
use yitu.Base.{ℕ, Bool, Option, List}
use yitu.Platform.Json.{Key}
use yitu.Pricing.Policy.{PricingInput, RouteCode, FeeItem}
use yitu.Shipments.Enums.{Role}

pub record User : Type 0 where
  pub user_row : ℕ
  pub user_role : Role
  pub home_station : Option ℕ

pub record Station : Type 0 where
  pub station_row : ℕ
  pub station_district : List ℕ
  pub station_enabled : Bool

pub record ServiceArea : Type 0 where
  pub area_district : List ℕ
  pub area_service : String
  pub area_station : ℕ

pub record Address : Type 0 where
  pub address_row : ℕ
  pub address_owner : ℕ
  pub address_district : List ℕ
  pub address_deleted : Option ℕ

-- `pricing_rules`
pub record PricingRule : Type 0 where
  pub pricing_rule_id : ℕ
  pub pricing_version : String
  pub pricing_route : RouteCode
  pub base_cents : ℕ
  pub additional_cents : ℕ
  pub remote_cents : ℕ
  pub valid_from : ℕ
  pub valid_to : Option ℕ

pub record QuoteSnapshot : Type 0 where
  pub quote_row : ℕ
  pub quote_owner : ℕ
  pub quote_rule : ℕ
  pub source_quote : Option ℕ
  pub quote_version : String
  pub quote_input : PricingInput
  pub quote_items : List FeeItem
  pub quote_volume_grams : ℕ
  pub quote_billable_grams : ℕ
  pub quote_total_cents : ℕ
  pub quoted_at : ℕ

-- What was declared of a package, and what the courier weighed.
pub record ShipmentPackage : Type 0 where
  pub package_row : ℕ
  pub package_category : Key
  pub package_description : Key
  pub estimated_weight : ℕ
  pub estimated_length : ℕ
  pub estimated_width : ℕ
  pub estimated_height : ℕ
  pub declared_value_cents : ℕ
  pub special_instructions : Option Key
  pub weighed : Option (ℕ × ℕ × ℕ × ℕ)
  pub reweighed_by : Option ℕ
  pub reweighed_at : Option ℕ
