-- ===== src/Sla/Service/Frame.antt =====
-- What the stages of a shipment leave alone (backend/src/yitu/sla/service.py).
use Prim.Native.String.{String}
use yitu.Base.{ℕ, ◌≡◌, refl, List, [], ◌∷◌, none, some, arith, Option}
use yitu.Platform.Json.{Key}
use yitu.Shipments.Enums.{ShipmentStatus, delivered, cancelled}
use yitu.Sla.Service.{
  start, open_instance, complete, complete_all, cancel_active_for_shipment,
  sync_shipment_transition, start_recovery_stage, finish_stages, start_stage, stage_by_status,
}
use yitu.Store.Rows.{Shipment, SlaRule, SlaInstance}
use yitu.Store.Session.{Session}

-- Only the stages and the supply of ids change.
abbrev pub StagesOnly : Session → Session → Type 0
StagesOnly s t = t ≡ record s { next_id = t.next_id; sla_instances = t.sla_instances }

open_instance-StagesOnly :
    (shipment : Shipment) (rule : SlaRule) (stage : String) (s : Session)
    → StagesOnly s (open_instance shipment rule stage s).1
unfolding open_instance
open_instance-StagesOnly shipment rule stage s = ground arith

start-StagesOnly :
    (k : ℕ) (route stage service : String) (s : Session)
    → StagesOnly s (start k route stage service s).1
unfolding start open_instance
start-StagesOnly k route stage service s = ground arith

complete-StagesOnly : (k : ℕ) (s : Session) → StagesOnly s (complete k s).1
unfolding complete
complete-StagesOnly k s = ground arith

complete_all-StagesOnly : (is : List SlaInstance) (s : Session) → StagesOnly s (complete_all is s).1
unfolding complete_all
complete_all-StagesOnly [] s = refl
complete_all-StagesOnly (i ∷ is) s =
    ground
      (arith, complete-StagesOnly i.sla_id s, complete_all-StagesOnly is (complete i.sla_id s).1)

start_stage-StagesOnly :
    (k : ℕ) (stage : Option String) (s : Session) → StagesOnly s (start_stage k stage s).1
start_stage-StagesOnly k none s = refl
start_stage-StagesOnly k (some stage) s =
    ground (arith, start-StagesOnly k "DEFAULT" stage "STANDARD" s)

pub cancel-StagesOnly :
    (k : ℕ) (reason : Key) (s : Session) → StagesOnly s (cancel_active_for_shipment k reason s).1
unfolding cancel_active_for_shipment
cancel-StagesOnly k reason s = refl

finish_stages-StagesOnly :
    (k : ℕ) (target : ShipmentStatus) (s : Session) → StagesOnly s (finish_stages k target s).1
unfolding finish_stages cancel_active_for_shipment
finish_stages-StagesOnly k delivered s = complete_all-StagesOnly _ s
finish_stages-StagesOnly k cancelled s = refl
finish_stages-StagesOnly k _ s = refl

-- Whatever becomes of the stages at a transition, no other table changes.
pub sync-StagesOnly :
    (k : ℕ) (target : ShipmentStatus) (s : Session)
    → StagesOnly s (sync_shipment_transition k target s).1
unfolding sync_shipment_transition
sync-StagesOnly k target s = ground (
  arith,
  start_stage-StagesOnly k (stage_by_status target) s,
  finish_stages-StagesOnly k target (start_stage k (stage_by_status target) s).1,
)

pub start_recovery-StagesOnly :
    (k : ℕ) (stage : String) (s : Session) → StagesOnly s (start_recovery_stage k stage s).1
unfolding start_recovery_stage open_instance
start_recovery-StagesOnly k stage s = ground arith
