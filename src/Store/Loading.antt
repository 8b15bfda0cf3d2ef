-- ===== src/Store/Loading.antt =====
-- The requests that are loaded after a reboot: the functions load_* of backupSession.c, which put what has been
-- read into the queues of xml.c and into the session. The two results that an RPC of a session points to are
-- objects of their own; a pointer is the place in the list of these.
use icwmp.Prelude.{ℕ, zero, suc, Option, none, some, List, [], ◌∷◌, ◌++◌, if◌then◌else◌, length}
use icwmp.Prelude.Decimal.{ℤ, pos, gt, is_zero}
use icwmp.Prelude.Text.{Text}
use icwmp.Event.{transfer_complete}
use icwmp.Session.{Cwmp, rpc_acs_transfer_complete}
use icwmp.Session.Queue.{cwmp_add_event_container}
use icwmp.Session.Causes.{
  LoadType, type_download, type_schedule_download, type_upload, add_rpc,
  cwmp_root_cause_transfer_complete, cwmp_root_cause_dustatechange_complete,
  sotfware_version_value_change,
}
use icwmp.Store.Node.{Node}
use icwmp.Store.Readers.{
  read_schedule_inform, read_download, read_schedule_download, read_apply_schedule_download,
  read_upload,
}
use icwmp.Store.Requests.{
  ScheduleInform, Download, ScheduleDownload, ApplyScheduleDownload, ChangeDuState, Upload,
  TransferComplete, DuStateChangeComplete,
}
use icwmp.Store.States.{read_change_du_state, read_du_state_change_complete, read_transfer_complete}

-- A link of list_change_du_state. load_change_du_state links the member `list_operation` of the request in place
-- of the member `list`, which cuts off the operations; the readers of the list take what stands before that member
-- for a request.
pub data DuLink : Type 0 where
  by_list by_list_operation : ChangeDuState → DuLink

pub record Queues : Type 0 where
  pub list_schedule_inform : List ScheduleInform
  pub list_download : List Download
  pub list_schedule_download : List ScheduleDownload
  pub list_apply_schedule_download : List ApplyScheduleDownload
  pub list_change_du_state : List DuLink
  pub list_upload : List Upload
  pub count_download_queue : ℕ
  pub transfers : List TransferComplete
  pub du_states : List DuStateChangeComplete
  pub cwmp : Cwmp

-- The time that the requests of a queue have.
abbrev pub inform_time : ScheduleInform → ℤ
inform_time r = r.scheduled_time

abbrev pub download_time : Download → ℤ
download_time r = r.scheduled_time

abbrev pub schedule_time : ScheduleDownload → ℤ
schedule_time r = r.window1.windowstart

abbrev pub apply_time : ApplyScheduleDownload → ℤ
apply_time r = r.interval1.windowstart

abbrev pub upload_time : Upload → ℤ
upload_time r = r.scheduled_time

-- list_for_each up to the first request of a later time, and list_add before it.
unfoldable pub add_by_time {ℓ} : {A : Type ℓ} → (A → ℤ) → A → List A → List A
add_by_time time a [] = a ∷ []
add_by_time time a (b ∷ bs) =
    let rest = add_by_time time a bs in if gt (time b) (time a) then a ∷ b ∷ bs else b ∷ rest

-- `if (time != 0) count_download_queue++;`
abbrev pub counted : ℤ → ℕ → ℕ
counted time n = if is_zero time then n else suc n

unfoldable pub add_schedule_inform : Queues → ScheduleInform → Queues
unfolding add_by_time
add_schedule_inform s r = record s {
  list_schedule_inform = add_by_time inform_time r s.list_schedule_inform;
}

unfoldable pub add_download : Queues → Download → Queues
unfolding add_by_time
add_download s r = record s {
  list_download = add_by_time download_time r s.list_download;
  count_download_queue = counted r.scheduled_time s.count_download_queue;
}

unfoldable pub add_schedule_download : Queues → ScheduleDownload → Queues
unfolding add_by_time
add_schedule_download s r = record s {
  list_schedule_download = add_by_time schedule_time r s.list_schedule_download;
  count_download_queue = counted r.window1.windowstart s.count_download_queue;
}

unfoldable pub add_apply_schedule_download : Queues → ApplyScheduleDownload → Queues
add_apply_schedule_download s r = record s {
  list_apply_schedule_download = s.list_apply_schedule_download ++ r ∷ [];
  count_download_queue = counted r.interval1.windowstart s.count_download_queue;
}

unfoldable pub add_upload : Queues → Upload → Queues
unfolding add_by_time
add_upload s r = record s {
  list_upload = add_by_time upload_time r s.list_upload;
  count_download_queue = counted r.scheduled_time s.count_download_queue;
}

unfoldable pub load_schedule_inform : Queues → Node → Queues
unfolding read_schedule_inform add_schedule_inform
load_schedule_inform s c = add_schedule_inform s (read_schedule_inform c)

unfoldable pub load_download : Queues → Node → Queues
unfolding read_download add_download
load_download s c = add_download s (read_download c)

unfoldable pub load_schedule_download : Queues → Node → Queues
unfolding read_schedule_download add_schedule_download
load_schedule_download s c = add_schedule_download s (read_schedule_download c)

unfoldable pub load_apply_schedule_download : Queues → Node → Queues
unfolding read_apply_schedule_download add_apply_schedule_download
load_apply_schedule_download s c = add_apply_schedule_download s (read_apply_schedule_download c)

unfoldable pub load_upload : Queues → Node → Queues
unfolding read_upload add_upload
load_upload s c = add_upload s (read_upload c)

-- list_add_tail on the member `list_operation`: the operations that were read are no longer linked to it.
unfoldable pub add_change_du_state : Queues → ChangeDuState → Queues
add_change_du_state s r = record s {
  list_change_du_state =
      s.list_change_du_state ++ by_list_operation (record r { list_operation = [] }) ∷ [];
}

unfoldable pub load_change_du_state : Queues → Node → Queues
unfolding read_change_du_state add_change_du_state
load_change_du_state s c = add_change_du_state s (read_change_du_state c)

unfoldable pub add_du_state_change_complete : Queues → DuStateChangeComplete → Queues
unfolding cwmp_root_cause_dustatechange_complete
add_du_state_change_complete s r = record s {
  du_states = s.du_states ++ r ∷ [];
  cwmp = (cwmp_root_cause_dustatechange_complete s.cwmp r.command_key (length s.du_states)).1;
}

unfoldable pub load_du_state_change_complete : Queues → Node → Queues
unfolding read_du_state_change_complete add_du_state_change_complete
load_du_state_change_complete s c = add_du_state_change_complete s (read_du_state_change_complete c)

abbrev load_type : ℤ → Option LoadType
load_type (pos zero) = some type_download
load_type (pos (suc zero)) = some type_schedule_download
load_type (pos (suc (suc zero))) = some type_upload
load_type _ = none

-- cwmp_root_cause_TransferComplete for a type that may be no enumerator: the switch then does nothing.
unfoldable pub root_cause_of_type : Cwmp → ℤ → Option Text → ℕ → Cwmp
unfolding cwmp_root_cause_transfer_complete add_rpc
root_cause_of_type c type key p = elim (load_type type) [
  | some t ↦ (cwmp_root_cause_transfer_complete c t key p).1
  | none ↦
      let (e, c') = cwmp_add_event_container c transfer_complete [] in
      elim e [ none ↦ c' | some _ ↦ (add_rpc c' rpc_acs_transfer_complete (some p)).1 ]
]

-- The device's own software version is an argument.
module _ (softwareversion : Option Text) where
  unfoldable pub add_transfer_complete : Queues → TransferComplete → Queues
  unfolding root_cause_of_type sotfware_version_value_change
  add_transfer_complete s r = record s {
    transfers = s.transfers ++ r ∷ [];
    cwmp =
        sotfware_version_value_change
          (root_cause_of_type s.cwmp r.type r.command_key (length s.transfers))
          r.old_software_version softwareversion;
  }

  unfoldable pub load_transfer_complete : Queues → Node → Queues
  unfolding read_transfer_complete add_transfer_complete
  load_transfer_complete s c = add_transfer_complete s (read_transfer_complete c)
