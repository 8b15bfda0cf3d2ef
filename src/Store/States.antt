-- ===== src/Store/States.antt =====
-- The readers of the deployment unit requests, of their results and of transfers (load_change_du_state,
-- load_du_state_change_complete, load_transfer_complete of backupSession.c).
use icwmp.Prelude.{Bool, true, false, none, [], ◌∷◌, ◌++◌, if◌then◌else◌}
use icwmp.Prelude.Decimal.{pos}
use icwmp.Prelude.Text.{Text, codes, str_eq}
use icwmp.Store.Node.{Node, text}
use icwmp.Store.Readers.{walk, set_text, set_number}
use icwmp.Store.Requests.{
  Operation, DuStateType, du_install, du_update, du_uninstall, ChangeDuState, TransferComplete,
  OpResult, DuStateChangeComplete,
}

-- What calloc gives, with the type that is set at once.
abbrev new_operation : DuStateType → Operation
new_operation t = record {
  type = t;
  url = none;
  uuid = none;
  version = none;
  username = none;
  password = none;
  executionenvref = none;
}

abbrev update_field : Operation → Text → Node → Operation
update_field r m c =
    if str_eq m (codes "uuid")
    then record r { uuid = set_text c r.uuid }
    else if str_eq m (codes "version")
    then record r { version = set_text c r.version }
    else if str_eq m (codes "url")
    then record r { url = set_text c r.url }
    else if str_eq m (codes "username")
    then record r { username = set_text c r.username }
    else if str_eq m (codes "password")
    then record r { password = set_text c r.password }
    else r

abbrev install_field : Operation → Text → Node → Operation
install_field r m c =
    if str_eq m (codes "uuid")
    then record r { uuid = set_text c r.uuid }
    else if str_eq m (codes "executionenvref")
    then record r { executionenvref = set_text c r.executionenvref }
    else if str_eq m (codes "url")
    then record r { url = set_text c r.url }
    else if str_eq m (codes "username")
    then record r { username = set_text c r.username }
    else if str_eq m (codes "password")
    then record r { password = set_text c r.password }
    else r

abbrev uninstall_field : Operation → Text → Node → Operation
uninstall_field r m c =
    if str_eq m (codes "uuid")
    then record r { uuid = set_text c r.uuid }
    else if str_eq m (codes "executionenvref")
    then record r { executionenvref = set_text c r.executionenvref }
    else if str_eq m (codes "version")
    then record r { version = set_text c r.version }
    else r

abbrev pub add_operation : ChangeDuState → Operation → ChangeDuState
add_operation r p = record r { list_operation = r.list_operation ++ p ∷ [] }

abbrev pub change_du_state_field : ChangeDuState → Text → Node → ChangeDuState
change_du_state_field r m c =
    if str_eq m (codes "command_key")
    then record r { command_key = set_text c r.command_key }
    else if str_eq m (codes "time")
    then record r { timeout = set_number c r.timeout }
    else if str_eq m (codes "upgrade")
    then add_operation r (walk update_field (new_operation du_update) c)
    else if str_eq m (codes "install")
    then add_operation r (walk install_field (new_operation du_install) c)
    else if str_eq m (codes "uninstall")
    then add_operation r (walk uninstall_field (new_operation du_uninstall) c)
    else r

unfoldable pub read_change_du_state : Node → ChangeDuState
read_change_du_state =
    walk change_du_state_field (record { timeout = pos 0; command_key = none; list_operation = [] })

-- `elem->resolved = d->value.text.string;`: the pointer is not NULL, so the flag is set.
abbrev set_resolved : Node → Bool → Bool
set_resolved (text v n) old = true
set_resolved c old = old

abbrev opresult_field : OpResult → Text → Node → OpResult
opresult_field r m c =
    if str_eq m (codes "uuid")
    then record r { uuid = set_text c r.uuid }
    else if str_eq m (codes "version")
    then record r { version = set_text c r.version }
    else if str_eq m (codes "du_ref")
    then record r { du_ref = set_text c r.du_ref }
    else if str_eq m (codes "current_state")
    then record r { current_state = set_text c r.current_state }
    else if str_eq m (codes "resolved")
    then record r { resolved = set_resolved c r.resolved }
    else if str_eq m (codes "start_time")
    then record r { start_time = set_text c r.start_time }
    else if str_eq m (codes "complete_time")
    then record r { complete_time = set_text c r.complete_time }
    else if str_eq m (codes "fault")
    then record r { fault = set_number c r.fault }
    else if str_eq m (codes "execution_unit_ref")
    then record r { execution_unit_ref = set_text c r.execution_unit_ref }
    else r

abbrev no_opresult : OpResult
no_opresult = record {
  uuid = none;
  du_ref = none;
  version = none;
  current_state = none;
  resolved = false;
  execution_unit_ref = none;
  start_time = none;
  complete_time = none;
  fault = pos 0;
}

abbrev pub add_opresult : DuStateChangeComplete → OpResult → DuStateChangeComplete
add_opresult r p = record r { list_opresult = r.list_opresult ++ p ∷ [] }

abbrev pub du_state_change_complete_field :
    DuStateChangeComplete → Text → Node → DuStateChangeComplete
du_state_change_complete_field r m c =
    if str_eq m (codes "command_key")
    then record r { command_key = set_text c r.command_key }
    else if str_eq m (codes "time")
    then record r { timeout = set_number c r.timeout }
    else if str_eq m (codes "opresult")
    then add_opresult r (walk opresult_field no_opresult c)
    else r

unfoldable pub read_du_state_change_complete : Node → DuStateChangeComplete
read_du_state_change_complete =
    walk du_state_change_complete_field
      (record { command_key = none; timeout = pos 0; list_opresult = [] })

abbrev transfer_complete_field : TransferComplete → Text → Node → TransferComplete
transfer_complete_field r m c =
    if str_eq m (codes "command_key")
    then record r { command_key = set_text c r.command_key }
    else if str_eq m (codes "start_time")
    then record r { start_time = set_text c r.start_time }
    else if str_eq m (codes "complete_time")
    then record r { complete_time = set_text c r.complete_time }
    else if str_eq m (codes "old_software_version")
    then record r { old_software_version = set_text c r.old_software_version }
    else if str_eq m (codes "fault_code")
    then record r { fault_code = set_number c r.fault_code }
    else if str_eq m (codes "type")
    then record r { type = set_number c r.type }
    else r

unfoldable pub read_transfer_complete : Node → TransferComplete
read_transfer_complete = walk transfer_complete_field (record {
  fault_code = pos 0;
  command_key = none;
  start_time = none;
  complete_time = none;
  old_software_version = none;
  type = pos 0;
})
