-- ===== src/Store/Readers.antt =====
-- What the functions load_* of backupSession.c read from the children of a node; the part that puts
-- the request into its queue is in Store.Loading. Memory suffices here: the code does not test calloc and
-- strdup, but for the schedule informs.
use icwmp.Prelude.{Option, none, some, if◌then◌else◌}
use icwmp.Prelude.Decimal.{ℤ, pos, atoi}
use icwmp.Prelude.Text.{Text, codes, str_eq}
use icwmp.Store.Node.{Node, null, element, text}
use icwmp.Store.Requests.{
  ScheduleInform, Download, TimeWindow, TimeInterval, ScheduleDownload, ApplyScheduleDownload,
  Upload,
}

-- The loop over the children, with what is done for an element of this name with these children.
abbrev pub walk {ℓ} : {A : Type ℓ} → (A → Text → Node → A) → A → Node → A
walk f a null = a
walk f a (text v n) = walk f a n
walk f a (element m c n) = walk f (f a m c) n

-- `if (c && c->type == MXML_TEXT) x = strdup(c->value.text.string);`
abbrev pub set_text : Node → Option Text → Option Text
set_text (text v n) old = some v
set_text c old = old

-- The same with atoi or atol.
abbrev pub set_number : Node → ℤ → ℤ
set_number (text v n) old = atoi v
set_number c old = old

abbrev schedule_inform_field : ScheduleInform → Text → Node → ScheduleInform
schedule_inform_field r m c =
    if str_eq m (codes "command_key")
    then record r { command_key = set_text c r.command_key }
    else if str_eq m (codes "time")
    then record r { scheduled_time = set_number c r.scheduled_time }
    else r

unfoldable pub read_schedule_inform : Node → ScheduleInform
read_schedule_inform =
    walk schedule_inform_field (record { scheduled_time = pos 0; command_key = none })

abbrev download_field : Download → Text → Node → Download
download_field r m c =
    if str_eq m (codes "url")
    then record r { url = set_text c r.url }
    else if str_eq m (codes "command_key")
    then record r { command_key = set_text c r.command_key }
    else if str_eq m (codes "file_type")
    then record r { file_type = set_text c r.file_type }
    else if str_eq m (codes "username")
    then record r { username = set_text c r.username }
    else if str_eq m (codes "password")
    then record r { password = set_text c r.password }
    else if str_eq m (codes "file_size")
    then record r { file_size = set_number c r.file_size }
    else if str_eq m (codes "time")
    then record r { scheduled_time = set_number c r.scheduled_time }
    else r

unfoldable pub read_download : Node → Download
read_download = walk download_field (record {
  scheduled_time = pos 0;
  file_size = pos 0;
  command_key = none;
  file_type = none;
  url = none;
  username = none;
  password = none;
})

abbrev no_window : TimeWindow
no_window = record {
  windowstart = pos 0;
  windowend = pos 0;
  windowmode = none;
  usermessage = none;
  maxretries = pos 0;
}

abbrev schedule_download_field : ScheduleDownload → Text → Node → ScheduleDownload
schedule_download_field r m c =
    if str_eq m (codes "url")
    then record r { url = set_text c r.url }
    else if str_eq m (codes "command_key")
    then record r { command_key = set_text c r.command_key }
    else if str_eq m (codes "file_type")
    then record r { file_type = set_text c r.file_type }
    else if str_eq m (codes "username")
    then record r { username = set_text c r.username }
    else if str_eq m (codes "password")
    then record r { password = set_text c r.password }
    else if str_eq m (codes "file_size")
    then record r { file_size = set_number c r.file_size }
    else if str_eq m (codes "windowstart1")
    then record r {
      window1 = record (r.window1) { windowstart = set_number c r.window1.windowstart };
    }
    else if str_eq m (codes "windowend1")
    then record r { window1 = record (r.window1) { windowend = set_number c r.window1.windowend } }
    else if str_eq m (codes "windowmode1")
    then record r { window1 = record (r.window1) { windowmode = set_text c r.window1.windowmode } }
    else if str_eq m (codes "usermessage1")
    then record r {
      window1 = record (r.window1) { usermessage = set_text c r.window1.usermessage };
    }
    else if str_eq m (codes "maxretrie1")
    then record r {
      window1 = record (r.window1) { maxretries = set_number c r.window1.maxretries };
    }
    else if str_eq m (codes "windowstart2")
    then record r {
      window2 = record (r.window2) { windowstart = set_number c r.window2.windowstart };
    }
    else if str_eq m (codes "windowend2")
    then record r { window2 = record (r.window2) { windowend = set_number c r.window2.windowend } }
    else if str_eq m (codes "windowmode2")
    then record r { window2 = record (r.window2) { windowmode = set_text c r.window2.windowmode } }
    else if str_eq m (codes "usermessage2")
    then record r {
      window2 = record (r.window2) { usermessage = set_text c r.window2.usermessage };
    }
    else if str_eq m (codes "maxretrie2")
    then record r {
      window2 = record (r.window2) { maxretries = set_number c r.window2.maxretries };
    }
    else r

unfoldable pub read_schedule_download : Node → ScheduleDownload
read_schedule_download = walk schedule_download_field (record {
  file_size = pos 0;
  command_key = none;
  file_type = none;
  url = none;
  username = none;
  password = none;
  window1 = no_window;
  window2 = no_window;
})

abbrev no_interval : TimeInterval
no_interval = record { windowstart = pos 0; windowend = pos 0; maxretries = pos 0 }

abbrev apply_field : ApplyScheduleDownload → Text → Node → ApplyScheduleDownload
apply_field r m c =
    if str_eq m (codes "command_key")
    then record r { command_key = set_text c r.command_key }
    else if str_eq m (codes "file_type")
    then record r { file_type = set_text c r.file_type }
    else if str_eq m (codes "start_time")
    then record r { start_time = set_text c r.start_time }
    else if str_eq m (codes "windowstart1")
    then record r {
      interval1 = record (r.interval1) { windowstart = set_number c r.interval1.windowstart };
    }
    else if str_eq m (codes "windowend1")
    then record r {
      interval1 = record (r.interval1) { windowend = set_number c r.interval1.windowend };
    }
    else if str_eq m (codes "maxretrie1")
    then record r {
      interval1 = record (r.interval1) { maxretries = set_number c r.interval1.maxretries };
    }
    else if str_eq m (codes "windowstart2")
    then record r {
      interval2 = record (r.interval2) { windowstart = set_number c r.interval2.windowstart };
    }
    else if str_eq m (codes "windowend2")
    then record r {
      interval2 = record (r.interval2) { windowend = set_number c r.interval2.windowend };
    }
    else if str_eq m (codes "maxretrie2")
    then record r {
      interval2 = record (r.interval2) { maxretries = set_number c r.interval2.maxretries };
    }
    else r

unfoldable pub read_apply_schedule_download : Node → ApplyScheduleDownload
read_apply_schedule_download = walk apply_field (record {
  start_time = none;
  command_key = none;
  file_type = none;
  interval1 = no_interval;
  interval2 = no_interval;
})

abbrev upload_field : Upload → Text → Node → Upload
upload_field r m c =
    if str_eq m (codes "url")
    then record r { url = set_text c r.url }
    else if str_eq m (codes "command_key")
    then record r { command_key = set_text c r.command_key }
    else if str_eq m (codes "file_type")
    then record r { file_type = set_text c r.file_type }
    else if str_eq m (codes "username")
    then record r { username = set_text c r.username }
    else if str_eq m (codes "password")
    then record r { password = set_text c r.password }
    else if str_eq m (codes "time")
    then record r { scheduled_time = set_number c r.scheduled_time }
    else r

unfoldable pub read_upload : Node → Upload
read_upload = walk upload_field (record {
  scheduled_time = pos 0;
  command_key = none;
  file_type = none;
  url = none;
  username = none;
  password = none;
  f_instance = none;
})
