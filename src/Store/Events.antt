-- ===== src/Store/Events.antt =====
-- The nodes of the events in the tree (bkp_session_insert_event, bkp_session_delete_event and
-- bkp_session_insert_parameter of backupSession.c). The functions of Session.Backup, which the sessions use, are about
-- the events alone.
use icwmp.Prelude.{ℕ, zero, suc, none, some, List, [], ◌∷◌}
use icwmp.Prelude.Decimal.{pos}
use icwmp.Prelude.Text.{Text, codes}
use icwmp.Session.Backup.{BkpStatus, queue, send}
use icwmp.Store.Node.{
  Node, null, element, text, key, insert_all, insert_node, bkp_session_insert,
  bkp_session_node_found, delete_found, SearchKeywords,
}
use icwmp.Store.Search.{count}
use icwmp.Store.Writers.{number}

-- `sprintf(parent_name, "%s_event", status)`
abbrev pub event_name : BkpStatus → Text
event_name queue = codes "queue_event"
event_name send = codes "send_event"

abbrev pub id_keys : ℕ → List SearchKeywords
id_keys id = key "id" (number (pos id)) ∷ []

abbrev pub event_keys : ℕ → Text → ℕ → List SearchKeywords
event_keys index command_key id =
    key "index" (number (pos index))
    ∷ key "id" (number (pos id))
    ∷ key "command_key" (some command_key)
    ∷ []

-- The tree, and the place of the node of the event in it.
unfoldable pub bkp_session_insert_event : Node → ℕ → Text → ℕ → BkpStatus → Node × ℕ
bkp_session_insert_event t index command_key id st =
    elim (bkp_session_node_found t (event_name st) (id_keys id)) [
      | some p ↦ (t, p)
      | none ↦ (
        insert_node t (event_name st) (insert_all null (event_keys index command_key id)),
        count t,
      )
    ]

unfoldable pub bkp_session_delete_event : Node → ℕ → BkpStatus → Node
bkp_session_delete_event t id st = delete_found t (event_name st) (id_keys id)

-- In the node at this place.
unfoldable pub bkp_session_insert_parameter : Node → ℕ → Text → Node
bkp_session_insert_parameter null p name = null
bkp_session_insert_parameter (element m c n) zero name =
    element m (bkp_session_insert c (codes "parameter") (some name)) n
bkp_session_insert_parameter (element m c n) (suc p) name =
    element m c (bkp_session_insert_parameter n p name)
bkp_session_insert_parameter (text v n) zero name = text v n
bkp_session_insert_parameter (text v n) (suc p) name =
    text v (bkp_session_insert_parameter n p name)
