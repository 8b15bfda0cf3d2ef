-- ===== src/Store/RoundTrip.antt =====
-- What is written for a request is what is read back.
use icwmp.Prelude.{Option, none, some, ◌≡◌, refl}
use icwmp.Prelude.Decimal.{sprintf_d, atoi, atoi-sprintf_d}
use icwmp.Prelude.Text.{Text, strcmp}
use icwmp.Store.Node.{null, insert_all, new_text, bkp_session_insert}
use icwmp.Store.Requests.{
  ScheduleInform, Download, TimeWindow, TimeInterval, ScheduleDownload, ApplyScheduleDownload,
  Upload, TransferComplete,
}
use icwmp.Store.Writers.{
  schedule_inform_keys, download_keys, schedule_download_keys, apply_schedule_download_keys,
  upload_keys, transfer_complete_fields,
}
use icwmp.Store.Readers.{
  set_text, read_schedule_inform, read_download, read_schedule_download,
  read_apply_schedule_download, read_upload,
}
use icwmp.Store.States.{read_transfer_complete}

pub text_back : (v : Option Text) → set_text (new_text v) none ≡ v
text_back none = refl
text_back (some v) = refl

pub read_schedule_inform-keys :
    (r : ScheduleInform) → read_schedule_inform (insert_all null (schedule_inform_keys r)) ≡ r
unfolding read_schedule_inform bkp_session_insert strcmp
read_schedule_inform-keys r = λ i. record {
  scheduled_time = atoi-sprintf_d r.scheduled_time i;
  command_key = text_back r.command_key i;
}

pub read_download-keys : (r : Download) → read_download (insert_all null (download_keys r)) ≡ r
unfolding read_download bkp_session_insert strcmp
read_download-keys r = λ i. record {
  scheduled_time = atoi-sprintf_d r.scheduled_time i;
  file_size = atoi-sprintf_d r.file_size i;
  command_key = text_back r.command_key i;
  file_type = text_back r.file_type i;
  url = text_back r.url i;
  username = text_back r.username i;
  password = text_back r.password i;
}

pub read_upload-keys :
    (r : Upload) → read_upload (insert_all null (upload_keys r)) ≡ record r { f_instance = none }
unfolding read_upload bkp_session_insert strcmp
read_upload-keys r = λ i. record {
  scheduled_time = atoi-sprintf_d r.scheduled_time i;
  command_key = text_back r.command_key i;
  file_type = text_back r.file_type i;
  url = text_back r.url i;
  username = text_back r.username i;
  password = text_back r.password i;
  f_instance = none;
}

pub read_transfer_complete-fields :
    (r : TransferComplete)
    → read_transfer_complete (insert_all null (transfer_complete_fields r)) ≡ r
unfolding read_transfer_complete bkp_session_insert strcmp
read_transfer_complete-fields r = λ i. record {
  fault_code = atoi-sprintf_d r.fault_code i;
  command_key = text_back r.command_key i;
  start_time = text_back r.start_time i;
  complete_time = text_back r.complete_time i;
  old_software_version = text_back r.old_software_version i;
  type = atoi-sprintf_d r.type i;
}

-- What has been read of a time window.
window_back :
    (w : TimeWindow)
    → ◌≡◌ {A = TimeWindow}
        (record {
          windowstart = atoi (sprintf_d w.windowstart);
          windowend = atoi (sprintf_d w.windowend);
          windowmode = set_text (new_text w.windowmode) none;
          usermessage = set_text (new_text w.usermessage) none;
          maxretries = atoi (sprintf_d w.maxretries);
        })
        w
window_back w = λ i. record {
  windowstart = atoi-sprintf_d w.windowstart i;
  windowend = atoi-sprintf_d w.windowend i;
  windowmode = text_back w.windowmode i;
  usermessage = text_back w.usermessage i;
  maxretries = atoi-sprintf_d w.maxretries i;
}

pub read_schedule_download-keys :
    (r : ScheduleDownload) → read_schedule_download (insert_all null (schedule_download_keys r)) ≡ r
unfolding read_schedule_download bkp_session_insert strcmp
read_schedule_download-keys r = λ i. record {
  file_size = atoi-sprintf_d r.file_size i;
  command_key = text_back r.command_key i;
  file_type = text_back r.file_type i;
  url = text_back r.url i;
  username = text_back r.username i;
  password = text_back r.password i;
  window1 = window_back r.window1 i;
  window2 = window_back r.window2 i;
}

interval_back :
    (w : TimeInterval)
    → ◌≡◌ {A = TimeInterval}
        (record {
          windowstart = atoi (sprintf_d w.windowstart);
          windowend = atoi (sprintf_d w.windowend);
          maxretries = atoi (sprintf_d w.maxretries);
        })
        w
interval_back w = λ i. record {
  windowstart = atoi-sprintf_d w.windowstart i;
  windowend = atoi-sprintf_d w.windowend i;
  maxretries = atoi-sprintf_d w.maxretries i;
}

pub read_apply_schedule_download-keys :
    (r : ApplyScheduleDownload)
    → read_apply_schedule_download (insert_all null (apply_schedule_download_keys r)) ≡ r
unfolding read_apply_schedule_download bkp_session_insert strcmp
read_apply_schedule_download-keys r = λ i. record {
  start_time = text_back r.start_time i;
  command_key = text_back r.command_key i;
  file_type = text_back r.file_type i;
  interval1 = interval_back r.interval1 i;
  interval2 = interval_back r.interval2 i;
}
