-- ===== src/Sessions/Repository.antt =====
-- backend/src/infrastructure/persistence/in_memory/session_repository.py, and of
-- work_order_repository.py and procedure_template_repository.py the look-ups that sessions use.
use superion.Prelude.{
  String, Bool, false, Option, none, some, List, [], ◌∷◌, string_eq, ◌==◌, ◌&&◌, not, if◌then◌else◌,
}
use superion.Effect.{Exec, ok}
use superion.Dict.{get, put, values}
use superion.Domain.Session.{Session, is_active}
use superion.Domain.WorkOrder.{WorkOrder}
use superion.Domain.Template.{Template}
use superion.World.{World}

unfoldable pub save : Session → Exec World (Unit {0})
save s w = (ok tt, record w { sessions = put w.sessions s.id s })

abbrev pub get_by_id : World → String → Option Session
get_by_id w session_id = get w.sessions session_id

unfoldable pub find_active : String → List Session → Option Session
find_active work_order_id [] = none
find_active work_order_id (s ∷ sessions) =
    if s.work_order_id == work_order_id && is_active s
    then some s
    else find_active work_order_id sessions

unfoldable pub get_active_for_work_order : World → String → Option Session
unfolding find_active
get_active_for_work_order w work_order_id = find_active work_order_id (values w.sessions)

-- `InMemoryWorkOrderRepository.save`
unfoldable pub save_order : WorkOrder → Exec World (Unit {0})
save_order order w = (ok tt, record w { work_orders = put w.work_orders order.id order })

-- `order.assigned_to == technician_id`
abbrev pub assigned : Option String → String → Bool
assigned none technician_id = false
assigned (some id) technician_id = id == technician_id

abbrev order_owned_by : String → Option WorkOrder → Option WorkOrder
order_owned_by technician_id none = none
order_owned_by technician_id (some order) =
    if not (assigned order.assigned_to technician_id) then none else some order

-- `InMemoryWorkOrderRepository.get_by_id_for_technician`
unfoldable pub get_order_for_technician : World → String → String → Option WorkOrder
get_order_for_technician w work_order_id technician_id =
    order_owned_by technician_id (get w.work_orders work_order_id)

abbrev pub get_template : World → String → Option Template
get_template w template_id = get w.templates template_id
