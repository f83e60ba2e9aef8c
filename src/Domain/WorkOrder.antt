-- ===== src/Domain/WorkOrder.antt =====
-- backend/src/domain/entities/work_order.py and the `WorkOrderStatus` of value_objects/status.py.
use superion.Prelude.{
  ℕ, String, Bool, true, false, Option, some, List, string_eq, ◌==◌, not, if◌then◌else◌,
}
use superion.Effect.{conflict, validation, Error, domain_error, Result, ok, err}
use superion.Domain.User.{User}

pub data WorkOrderStatus : Type 0 where
  pending in_progress paused completed cancelled : WorkOrderStatus

pub data OrderType : Type 0 where
  preventive corrective : OrderType

pub data Priority : Type 0 where
  low med high : Priority

pub record WorkOrder : Type 0 where
  pub id : String
  pub code : String
  pub asset_id : String
  pub type : OrderType
  pub priority : Priority
  pub status : WorkOrderStatus
  pub assigned_to : Option String
  pub planned_start : ℕ
  pub planned_end : ℕ
  pub procedure_template_id : String
  pub created_at : ℕ
  pub description : String
  pub notes : String
  pub linked_wo_ids : List String

abbrev pub already_completed : Error
already_completed = domain_error conflict "WORK_ORDER_ALREADY_COMPLETED"

abbrev pub already_started : Error
already_started = domain_error conflict "WORK_ORDER_ALREADY_STARTED"

unfoldable pub assign_to : WorkOrder → User → String → Result WorkOrder
assign_to order user asset_plant_id =
    if not (user.plant_id == asset_plant_id)
    then err (domain_error validation "VALIDATION_ERROR")
    else ok (record order { assigned_to = some user.id })

start_from : WorkOrderStatus → WorkOrder → Result WorkOrder
start_from WorkOrderStatus.completed order = err already_completed
start_from WorkOrderStatus.in_progress order = err already_started
start_from WorkOrderStatus.pending order =
    ok (record order { status = WorkOrderStatus.in_progress })
start_from _ order = err already_started

unfoldable pub start : WorkOrder → Result WorkOrder
unfolding start_from
start order = start_from order.status order

abbrev pub is_pending : WorkOrderStatus → Bool
is_pending WorkOrderStatus.pending = true
is_pending _ = false

abbrev pub is_in_progress : WorkOrderStatus → Bool
is_in_progress WorkOrderStatus.in_progress = true
is_in_progress _ = false

abbrev pub is_completed : WorkOrderStatus → Bool
is_completed WorkOrderStatus.completed = true
is_completed _ = false

-- `WorkOrder.can_start`
unfoldable pub can_start : WorkOrder → Bool
can_start order = is_pending order.status
