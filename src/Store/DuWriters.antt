-- ===== src/Store/DuWriters.antt =====
-- The functions of backupSession.c that insert and delete changes of the state of deployment units, and their
-- results.
use icwmp.Prelude.{Bool, some, List, [], ◌∷◌}
use icwmp.Prelude.Text.{Text, codes}
use icwmp.Store.Node.{Node, null, SearchKeywords, key, insert_all, insert_node, delete_found}
use icwmp.Store.Requests.{
  Operation, du_install, du_update, du_uninstall, ChangeDuState, OpResult, DuStateChangeComplete,
}
use icwmp.Store.Writers.{number}

-- The children of a node for an operation.
unfoldable pub insert_operation : Node → Operation → Node
insert_operation b p = elim p.type [
  | du_install ↦ insert_node b (codes "install") (
      insert_all null (
        key "url" p.url
        ∷ key "uuid" p.uuid
        ∷ key "username" p.username
        ∷ key "password" p.password
        ∷ key "executionenvref" p.executionenvref
        ∷ []))
  | du_uninstall ↦ insert_node b (codes "uninstall") (
      insert_all null (
        key "uuid" p.uuid ∷ key "version" p.version ∷ key "executionenvref" p.executionenvref ∷ []))
  | du_update ↦ insert_node b (codes "upgrade") (
      insert_all null (
        key "url" p.url
        ∷ key "uuid" p.uuid
        ∷ key "username" p.username
        ∷ key "password" p.password
        ∷ key "version" p.version
        ∷ []))
]

unfoldable pub insert_operations : Node → List Operation → Node
unfolding insert_operation
insert_operations b [] = b
insert_operations b (p ∷ ps) = insert_operations (insert_operation b p) ps

abbrev pub change_du_state_keys : ChangeDuState → List SearchKeywords
change_du_state_keys r = key "command_key" r.command_key ∷ key "time" (number r.timeout) ∷ []

-- Nothing is looked for here.
unfoldable pub bkp_session_insert_change_du_state : Node → ChangeDuState → Node
unfolding insert_operations
bkp_session_insert_change_du_state t r =
    insert_node t (codes "change_du_state")
      (insert_operations (insert_all null (change_du_state_keys r)) r.list_operation)

unfoldable pub bkp_session_delete_change_du_state : Node → ChangeDuState → Node
bkp_session_delete_change_du_state t r =
    delete_found t (codes "change_du_state") (change_du_state_keys r)

abbrev pub du_state_change_complete_keys : DuStateChangeComplete → List SearchKeywords
du_state_change_complete_keys r =
    key "command_key" r.command_key ∷ key "time" (number r.timeout) ∷ []

-- `sprintf(resolved, "%b", …)` is an argument: the C library has had no such conversion until lately.
module _ (sprintf_b : Bool → Text) where
  unfoldable pub insert_opresult : Node → OpResult → Node
  insert_opresult b p = insert_node b (codes "opresult") (
      insert_all null (
        key "uuid" p.uuid
        ∷ key "du_ref" p.du_ref
        ∷ key "version" p.version
        ∷ key "current_state" p.current_state
        ∷ key "resolved" (some (sprintf_b p.resolved))
        ∷ key "execution_unit_ref" p.execution_unit_ref
        ∷ key "start_time" p.start_time
        ∷ key "complete_time" p.complete_time
        ∷ key "fault" (number p.fault)
        ∷ []))

  unfoldable pub insert_opresults : Node → List OpResult → Node
  unfolding insert_opresult
  insert_opresults b [] = b
  insert_opresults b (p ∷ ps) = insert_opresults (insert_opresult b p) ps

  unfoldable pub bkp_session_insert_du_state_change_complete : Node → DuStateChangeComplete → Node
  unfolding insert_opresults
  bkp_session_insert_du_state_change_complete t r =
      insert_node t (codes "du_state_change_complete")
        (insert_opresults (insert_all null (du_state_change_complete_keys r)) r.list_opresult)

unfoldable pub bkp_session_delete_du_state_change_complete : Node → DuStateChangeComplete → Node
bkp_session_delete_du_state_change_complete t r =
    delete_found t (codes "du_state_change_complete") (du_state_change_complete_keys r)
