-- ===== src/Identity.antt =====
-- backend/src/yitu/identity/service.py: the guards on the role, the station and the owner.
use yitu.Base.{ℕ, Bool, true, false, not, ◌&&◌, some, opt_eq, ◌==◌}
use yitu.Platform.Errors.{forbidden_role, forbidden_station_scope, forbidden_resource_owner}
use yitu.Shipments.Enums.{Role, customer, courier, station_operator, operations_admin}
use yitu.Store.Rows.{CurrentUser}
use yitu.Store.Session.{Action, raise_if}

abbrev pub role_is : Role → Role → Bool
role_is customer customer = true
role_is courier courier = true
role_is station_operator station_operator = true
role_is operations_admin operations_admin = true
role_is _ _ = false

-- `if actor.role is not …: raise AppError("FORBIDDEN_ROLE", …)`
abbrev pub require_role : Role → CurrentUser → Action (Unit {0})
require_role role actor = raise_if (not (role_is actor.role role)) forbidden_role

abbrev pub require_station_scope : ℕ → CurrentUser → Action (Unit {0})
require_station_scope station_id actor =
    raise_if (not (opt_eq actor.user_station (some station_id))) forbidden_station_scope

abbrev pub require_resource_owner : ℕ → CurrentUser → Action (Unit {0})
require_resource_owner owner_id actor =
    raise_if (role_is actor.role customer && not (owner_id == actor.user_id))
      forbidden_resource_owner
