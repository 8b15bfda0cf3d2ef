-- ===== src/Store/Writers.antt =====
-- The functions bkp_session_insert_* and bkp_session_delete_* of backupSession.c for the requests. Each
-- takes mutex_backup_session, so it is one step.
use icwmp.Prelude.{Option, some, List, [], ◌∷◌}
use icwmp.Prelude.Decimal.{ℤ, sprintf_d}
use icwmp.Prelude.Text.{Text, codes}
use icwmp.Store.Node.{Node, SearchKeywords, key, insert_unless_found, delete_found}
use icwmp.Store.Requests.{
  ScheduleInform, Download, ScheduleDownload, ApplyScheduleDownload, Upload, TransferComplete,
}

-- A number as the text that sprintf makes of it.
abbrev pub number : ℤ → Option Text
number n = some (sprintf_d n)

abbrev pub schedule_inform_keys : ScheduleInform → List SearchKeywords
schedule_inform_keys r = key "command_key" r.command_key ∷ key "time" (number r.scheduled_time) ∷ []

unfoldable pub bkp_session_insert_schedule_inform : Node → ScheduleInform → Node
bkp_session_insert_schedule_inform t r =
    insert_unless_found t (codes "schedule_inform") (schedule_inform_keys r)
      (schedule_inform_keys r)

unfoldable pub bkp_session_delete_schedule_inform : Node → ScheduleInform → Node
bkp_session_delete_schedule_inform t r =
    delete_found t (codes "schedule_inform") (schedule_inform_keys r)

abbrev pub download_keys : Download → List SearchKeywords
download_keys r =
    key "url" r.url
    ∷ key "command_key" r.command_key
    ∷ key "file_type" r.file_type
    ∷ key "username" r.username
    ∷ key "password" r.password
    ∷ key "file_size" (number r.file_size)
    ∷ key "time" (number r.scheduled_time)
    ∷ []

unfoldable pub bkp_session_insert_download : Node → Download → Node
bkp_session_insert_download t r =
    insert_unless_found t (codes "download") (download_keys r) (download_keys r)

unfoldable pub bkp_session_delete_download : Node → Download → Node
bkp_session_delete_download t r = delete_found t (codes "download") (download_keys r)

abbrev pub schedule_download_keys : ScheduleDownload → List SearchKeywords
schedule_download_keys r =
    key "url" r.url
    ∷ key "command_key" r.command_key
    ∷ key "file_type" r.file_type
    ∷ key "username" r.username
    ∷ key "password" r.password
    ∷ key "file_size" (number r.file_size)
    ∷ key "windowstart1" (number r.window1.windowstart)
    ∷ key "windowend1" (number r.window1.windowend)
    ∷ key "windowmode1" r.window1.windowmode
    ∷ key "usermessage1" r.window1.usermessage
    ∷ key "maxretrie1" (number r.window1.maxretries)
    ∷ key "windowstart2" (number r.window2.windowstart)
    ∷ key "windowend2" (number r.window2.windowend)
    ∷ key "windowmode2" r.window2.windowmode
    ∷ key "usermessage2" r.window2.usermessage
    ∷ key "maxretrie2" (number r.window2.maxretries)
    ∷ []

unfoldable pub bkp_session_insert_schedule_download : Node → ScheduleDownload → Node
bkp_session_insert_schedule_download t r =
    insert_unless_found t (codes "schedule_download") (schedule_download_keys r)
      (schedule_download_keys r)

unfoldable pub bkp_session_delete_schedule_download : Node → ScheduleDownload → Node
bkp_session_delete_schedule_download t r =
    delete_found t (codes "schedule_download") (schedule_download_keys r)

abbrev pub interval_keys : ApplyScheduleDownload → List SearchKeywords
interval_keys r =
    key "windowstart1" (number r.interval1.windowstart)
    ∷ key "windowend1" (number r.interval1.windowend)
    ∷ key "maxretrie1" (number r.interval1.maxretries)
    ∷ key "windowstart2" (number r.interval2.windowstart)
    ∷ key "windowend2" (number r.interval2.windowend)
    ∷ key "maxretrie2" (number r.interval2.maxretries)
    ∷ []

-- The order in which the children are written, and in which the function that deletes looks for them.
abbrev pub apply_schedule_download_keys : ApplyScheduleDownload → List SearchKeywords
apply_schedule_download_keys r =
    key "start_time" r.start_time
    ∷ key "command_key" r.command_key
    ∷ key "file_type" r.file_type
    ∷ interval_keys r

-- The keys that the function that inserts looks for: they are in another order than the children.
abbrev pub apply_schedule_download_insert_keys : ApplyScheduleDownload → List SearchKeywords
apply_schedule_download_insert_keys r =
    key "command_key" r.command_key
    ∷ key "file_type" r.file_type
    ∷ key "start_time" r.start_time
    ∷ interval_keys r

unfoldable pub bkp_session_insert_apply_schedule_download : Node → ApplyScheduleDownload → Node
bkp_session_insert_apply_schedule_download t r =
    insert_unless_found t (codes "apply_schedule_download") (apply_schedule_download_insert_keys r)
      (apply_schedule_download_keys r)

unfoldable pub bkp_session_delete_apply_schedule_download : Node → ApplyScheduleDownload → Node
bkp_session_delete_apply_schedule_download t r =
    delete_found t (codes "apply_schedule_download") (apply_schedule_download_keys r)

abbrev pub upload_keys : Upload → List SearchKeywords
upload_keys r =
    key "url" r.url
    ∷ key "command_key" r.command_key
    ∷ key "file_type" r.file_type
    ∷ key "username" r.username
    ∷ key "password" r.password
    ∷ key "time" (number r.scheduled_time)
    ∷ []

unfoldable pub bkp_session_insert_upload : Node → Upload → Node
bkp_session_insert_upload t r =
    insert_unless_found t (codes "upload") (upload_keys r) (upload_keys r)

unfoldable pub bkp_session_delete_upload : Node → Upload → Node
bkp_session_delete_upload t r = delete_found t (codes "upload") (upload_keys r)

abbrev pub transfer_complete_keys : TransferComplete → List SearchKeywords
transfer_complete_keys r =
    key "command_key" r.command_key
    ∷ key "start_time" r.start_time
    ∷ key "complete_time" r.complete_time
    ∷ key "fault_code" (number r.fault_code)
    ∷ key "type" (number r.type)
    ∷ []

abbrev pub transfer_complete_fields : TransferComplete → List SearchKeywords
transfer_complete_fields r =
    key "command_key" r.command_key
    ∷ key "start_time" r.start_time
    ∷ key "complete_time" r.complete_time
    ∷ key "old_software_version" r.old_software_version
    ∷ key "fault_code" (number r.fault_code)
    ∷ key "type" (number r.type)
    ∷ []

unfoldable pub bkp_session_insert_transfer_complete : Node → TransferComplete → Node
bkp_session_insert_transfer_complete t r =
    insert_unless_found t (codes "transfer_complete") (transfer_complete_keys r)
      (transfer_complete_fields r)

unfoldable pub bkp_session_delete_transfer_complete : Node → TransferComplete → Node
bkp_session_delete_transfer_complete t r =
    delete_found t (codes "transfer_complete") (transfer_complete_keys r)
