-- ===== src/Tests/RpcTests.antt =====
-- Messages of the ACS on small queues (Rpc).
use icwmp.Prelude.{Option, none, some, List, [], ◌∷◌, ◌≡◌, refl, ℕ, map, arith}
use icwmp.Prelude.Decimal.{ℤ, pos, atoi}
use icwmp.Prelude.Text.{Text, codes, strcmp, strstr, is_prefix}
use icwmp.Rpc.{invalid_update_version_exist, State, Answer, fault_message, unsupported_protocol}
use icwmp.Rpc.FaultTable.{Known, fault-Known}
use icwmp.Rpc.Invariant.{Holds, handle_all-Good}
use icwmp.Rpc.Launch.{Script}
use icwmp.Rpc.Messages.{
  Message, download_message, upload_message, schedule_inform_message, cancel_transfer_message,
  download_round, upload_round, handle_all,
}
use icwmp.Rpc.Steps.{Good}
use icwmp.Rpc.Transfer.{read_download_args, read_upload_args, cwmp_handle_rpc_cpe_upload}
use icwmp.Store.Node.{Node, null, element, text}
use icwmp.Store.Requests.{ScheduleInform, Download, Upload, TransferComplete}
use icwmp.Tests.StoreTests.{no_requests}

abbrev start : State
start = record {
  queues = no_requests;
  count_schedule_inform_queue = pos 0;
  bkp_tree = element (codes "backup_file") null null;
  bkp_file = null;
}

abbrev arg : Text → Text → Node → Node
arg m v n = element m (text v null) n

abbrev download_of : Text → Node
download_of delay = arg (codes "CommandKey") (codes "k1") (
    element (codes "FileType")
      (text (codes "1")
        (text (codes "Firmware") (text (codes "Upgrade") (text (codes "Image") null))))
      (arg (codes "URL") (codes "http://acs/fw") (arg (codes "DelaySeconds") delay null)))

abbrev upload_of : Text → Node
upload_of url = arg (codes "CommandKey") (codes "k2") (
    element (codes "FileType")
      (text (codes "3")
        (text (codes "Vendor") (text (codes "Configuration") (text (codes "File") null))))
      (arg (codes "URL") url (arg (codes "DelaySeconds") (codes "7") null)))

abbrev inform_of : Text → Node
inform_of delay =
    element (codes "cwmp:ScheduleInform")
      (arg (codes "DelaySeconds") delay (arg (codes "CommandKey") (codes "k3") null)) null

abbrev cancel_of : Text → Node
cancel_of key = element (codes "cwmp:CancelTransfer") (arg (codes "CommandKey") key null) null

abbrev refused : Script
refused = record {
  transfer_fault = some (codes "9010");
  apply_fault = none;
  start_time = codes "2026-01-01T00:00:00";
  complete_time = codes "2026-01-01T00:00:05";
}

abbrev messages : List Message
messages =
    download_message (pos 100) (some (download_of (codes "60")))
    ∷ upload_message (pos 101) (some (upload_of (codes "ftp://acs/cfg")))
    ∷ download_message (pos 102) (some (download_of (codes "5")))
    ∷ schedule_inform_message (pos 103) (inform_of (codes "9"))
    ∷ download_round none (pos 107) refused
    ∷ cancel_transfer_message (cancel_of (codes "k1"))
    ∷ []

abbrev take_three : {A : Type 0} → List A → List A
take_three (a ∷ b ∷ c ∷ ds) = a ∷ b ∷ c ∷ []
take_three ds = ds

abbrev upload_first : Message
upload_first = upload_message (pos 101) (some (upload_of (codes "ftp://acs/cfg")))

abbrev faults : Option State → Option (List ℤ)
faults none = none
faults (some s) = some (map (λ (p : TransferComplete). p.fault_code) s.queues.transfers)

abbrev answer_of : Option (Answer × State) → Option Answer
answer_of none = none
answer_of (some (a, s)) = some a

abbrev informs : Option State → Option (List ℤ)
informs none = none
informs (some s) =
    some (map (λ (r : ScheduleInform). r.scheduled_time) s.queues.list_schedule_inform)

-- The counter and the times of the two queues.
abbrev times : Option State → Option (ℕ × List ℤ × List ℤ)
times none = none
times (some s) = some (
  s.queues.count_download_queue,
  map (λ (d : Download). d.scheduled_time) s.queues.list_download,
  map (λ (u : Upload). u.scheduled_time) s.queues.list_upload,
)

-- Three transfers are queued, a round takes the first download, and the cancel removes the other.
cancelled : times (handle_all start messages) ≡ some (1, [], pos 108 ∷ [])
unfolding handle_all strcmp strstr atoi
cancelled = refl

-- The later download has the earlier time.
ordered :
    times (handle_all start (take_three messages)) ≡ some (3, pos 107 ∷ pos 160 ∷ [], pos 108 ∷ [])
unfolding handle_all strcmp strstr atoi
ordered = refl

unsupported :
    answer_of
      (cwmp_handle_rpc_cpe_upload start (pos 0) (some (upload_of (codes "https://acs/cfg"))))
    ≡ some (fault_message unsupported_protocol)
unfolding cwmp_handle_rpc_cpe_upload strcmp is_prefix strstr
unsupported = refl

-- A negative delay is a time 136 years ahead.
negative_delay :
    informs (handle_all start (schedule_inform_message (pos 0) (inform_of (codes "-1")) ∷ []))
    ≡ some (pos 4294967295 ∷ [])
unfolding handle_all strcmp strstr atoi
negative_delay = refl

-- The upload that was refused is reported with its own number of the fault.
reported :
    faults (handle_all start (upload_first ∷ upload_round (pos 108) refused ∷ []))
    ≡ some (pos 11 ∷ [])
unfolding handle_all strcmp strstr atoi is_prefix
reported = refl

start-Good : Good start.queues
start-Good = record {
  downloads = tt;
  uploads = tt;
  schedules = tt;
  informs = tt;
  counter = refl;
  limit = omega arith;
}

handle_all-Good_example : Holds (handle_all start messages)
unfolding read_download_args read_upload_args strcmp atoi
handle_all-Good_example =
    handle_all-Good start messages (refl, (refl, (refl, (tt, (tt, (tt, tt)))))) start-Good

fault-Known_example : Known invalid_update_version_exist
fault-Known_example = fault-Known invalid_update_version_exist
