-- ===== src/Store/Request.antt =====
-- All kinds of requests of the backup file together, to state what holds of each. `save_request` and
-- `delete_request` are the functions bkp_session_insert_* and bkp_session_delete_* of backupSession.c.
use icwmp.Prelude.{Bool, Option, none, some, List}
use icwmp.Prelude.Text.{Text, codes}
use icwmp.Store.Node.{Node, null, insert_all, SearchKeywords}
use icwmp.Store.Requests.{
  ScheduleInform, Download, ScheduleDownload, ApplyScheduleDownload, ChangeDuState, Upload,
  TransferComplete, DuStateChangeComplete,
}
use icwmp.Store.Writers.{
  schedule_inform_keys, download_keys, schedule_download_keys, apply_schedule_download_keys,
  apply_schedule_download_insert_keys, upload_keys, transfer_complete_keys,
  transfer_complete_fields, bkp_session_insert_schedule_inform, bkp_session_insert_download,
  bkp_session_insert_schedule_download, bkp_session_insert_apply_schedule_download,
  bkp_session_insert_upload, bkp_session_insert_transfer_complete,
  bkp_session_delete_schedule_inform, bkp_session_delete_download,
  bkp_session_delete_schedule_download, bkp_session_delete_apply_schedule_download,
  bkp_session_delete_upload, bkp_session_delete_transfer_complete,
}
use icwmp.Store.DuWriters.{
  change_du_state_keys, du_state_change_complete_keys, insert_operations, insert_opresults,
  bkp_session_insert_change_du_state, bkp_session_delete_change_du_state,
  bkp_session_insert_du_state_change_complete, bkp_session_delete_du_state_change_complete,
}

pub data Request : Type 0 where
  schedule_inform : ScheduleInform → Request
  download : Download → Request
  schedule_download : ScheduleDownload → Request
  apply_schedule_download : ApplyScheduleDownload → Request
  change_du_state : ChangeDuState → Request
  upload : Upload → Request
  transfer_complete : TransferComplete → Request
  du_state_change_complete : DuStateChangeComplete → Request

abbrev pub node_name : Request → Text
node_name (schedule_inform r) = codes "schedule_inform"
node_name (download r) = codes "download"
node_name (schedule_download r) = codes "schedule_download"
node_name (apply_schedule_download r) = codes "apply_schedule_download"
node_name (change_du_state r) = codes "change_du_state"
node_name (upload r) = codes "upload"
node_name (transfer_complete r) = codes "transfer_complete"
node_name (du_state_change_complete r) = codes "du_state_change_complete"

-- The keys by which the request is deleted.
abbrev pub delete_keys : Request → List SearchKeywords
delete_keys (schedule_inform r) = schedule_inform_keys r
delete_keys (download r) = download_keys r
delete_keys (schedule_download r) = schedule_download_keys r
delete_keys (apply_schedule_download r) = apply_schedule_download_keys r
delete_keys (change_du_state r) = change_du_state_keys r
delete_keys (upload r) = upload_keys r
delete_keys (transfer_complete r) = transfer_complete_keys r
delete_keys (du_state_change_complete r) = du_state_change_complete_keys r

-- The keys by which an earlier copy is looked for, where one is.
abbrev pub insert_keys : Request → Option (List SearchKeywords)
insert_keys (apply_schedule_download r) = some (apply_schedule_download_insert_keys r)
insert_keys (change_du_state r) = none
insert_keys (du_state_change_complete r) = none
insert_keys q = some (delete_keys q)

abbrev pub delete_request : Node → Request → Node
delete_request t (schedule_inform r) = bkp_session_delete_schedule_inform t r
delete_request t (download r) = bkp_session_delete_download t r
delete_request t (schedule_download r) = bkp_session_delete_schedule_download t r
delete_request t (apply_schedule_download r) = bkp_session_delete_apply_schedule_download t r
delete_request t (change_du_state r) = bkp_session_delete_change_du_state t r
delete_request t (upload r) = bkp_session_delete_upload t r
delete_request t (transfer_complete r) = bkp_session_delete_transfer_complete t r
delete_request t (du_state_change_complete r) = bkp_session_delete_du_state_change_complete t r

module _ (sprintf_b : Bool → Text) where
  abbrev pub save_request : Node → Request → Node
  save_request t (schedule_inform r) = bkp_session_insert_schedule_inform t r
  save_request t (download r) = bkp_session_insert_download t r
  save_request t (schedule_download r) = bkp_session_insert_schedule_download t r
  save_request t (apply_schedule_download r) = bkp_session_insert_apply_schedule_download t r
  save_request t (change_du_state r) = bkp_session_insert_change_du_state t r
  save_request t (upload r) = bkp_session_insert_upload t r
  save_request t (transfer_complete r) = bkp_session_insert_transfer_complete t r
  save_request t (du_state_change_complete r) =
      bkp_session_insert_du_state_change_complete sprintf_b t r

  -- The children of the node that is written.
  abbrev pub children : Request → Node
  children (change_du_state r) =
      insert_operations (insert_all null (change_du_state_keys r)) r.list_operation
  children (du_state_change_complete r) =
      insert_opresults sprintf_b (insert_all null (du_state_change_complete_keys r)) r.list_opresult
  children (transfer_complete r) = insert_all null (transfer_complete_fields r)
  children q = insert_all null (delete_keys q)
