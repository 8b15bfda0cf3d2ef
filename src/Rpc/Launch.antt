-- ===== src/Rpc/Launch.antt =====
-- A round of thread_cwmp_rpc_cpe_download and of thread_cwmp_rpc_cpe_upload (xml.c), as one step. The scripts
-- stand outside: what they answer and the texts of mix_get_time are arguments. Which arguments the scripts get is
-- left out.
use icwmp.Prelude.{
  ℕ, Bool, true, false, ◌&&◌, ◌||◌, Option, none, some, List, [], ◌∷◌, ◌++◌, if◌then◌else◌,
}
use icwmp.Prelude.Decimal.{ℤ, pos, gt, plus, is_zero}
use icwmp.Prelude.Lists.{length}
use icwmp.Prelude.Text.{Text, codes, is_prefix}
use icwmp.Rpc.{State, bkp_session_save, Fault, download_failure}
use icwmp.Rpc.Faults.{fault_of_text, fault_index}
use icwmp.Rpc.Remove.{uncounted}
use icwmp.Store.Loading.{Queues, download_time, upload_time, root_cause_of_type}
use icwmp.Store.Requests.{Download, Upload, TransferComplete}
use icwmp.Store.Writers.{
  bkp_session_delete_download, bkp_session_delete_upload, bkp_session_insert_transfer_complete,
  bkp_session_delete_transfer_complete,
}

-- What the scripts answer to the transfer and to its application, and the clock as text before and after.
pub record Script : Type 0 where
  pub transfer_fault : Option Text
  pub apply_fault : Option Text
  pub start_time : Text
  pub complete_time : Text

-- `exits` is the exit of the process, `reads_null` a read of a NULL pointer. In `left_locked` the thread goes on, but
-- mutex_upload stays locked, for which every later step that takes it waits for ever.
pub data Round : Type 0 where
  waits goes_on exits left_locked : State → Round
  reads_null : Round

unfoldable pub fault_of_script : Option Text → Option Fault
unfolding fault_of_text
fault_of_script none = none
fault_of_script (some t) = if is_prefix (codes "9") t then fault_of_text t else none

abbrev fault_code_of : Option Fault → ℤ
fault_code_of none = pos 0
fault_code_of (some f) = pos (fault_index f)

unfoldable pub insert_complete : State → TransferComplete → State
unfolding bkp_session_insert_transfer_complete
insert_complete s p = record s { bkp_tree = bkp_session_insert_transfer_complete s.bkp_tree p }

unfoldable pub delete_complete : State → TransferComplete → State
unfolding bkp_session_delete_transfer_complete
delete_complete s p = record s { bkp_tree = bkp_session_delete_transfer_complete s.bkp_tree p }

-- cwmp_root_cause_TransferComplete, which keeps the pointer.
unfoldable pub report : State → TransferComplete → State
unfolding root_cause_of_type
report s p = record s {
  queues = record (s.queues) {
    transfers = s.queues.transfers ++ p ∷ [];
    cwmp = root_cause_of_type s.queues.cwmp p.type p.command_key (length s.queues.transfers);
  };
}

abbrev complete : Script → Text → Option Fault → TransferComplete
complete e key fault = record {
  fault_code = fault_code_of fault;
  command_key = some key;
  start_time = some e.start_time;
  complete_time = some e.complete_time;
  old_software_version = none;
  type = pos 0;
}

-- More than an hour late.
unfoldable pub failed_transfer : State → Script → Option Text → ℤ → Round
unfolding insert_complete report fault_index
failed_transfer s e none type = reads_null
failed_transfer s e (some key) type =
    let p : TransferComplete = record (complete e key (some download_failure)) {
      complete_time = some e.start_time;
      type = type;
    } in
    goes_on (report (insert_complete s p) p)

abbrev no_fault : Option Fault → Bool
no_fault none = true
no_fault (some f) = false

-- `error == FAULT_CPE_NO_FAULT` and a firmware or a configuration file.
abbrev pub ends_process : Option Fault → Text → Bool
ends_process fault file_type =
    no_fault fault && (is_prefix (codes "1") file_type || is_prefix (codes "3") file_type)

unfoldable pub reported_again : State → TransferComplete → Option Fault → State
unfolding insert_complete delete_complete report bkp_session_save fault_index
reported_again s p fault =
    let p' : TransferComplete = record p { fault_code = fault_code_of fault } in
    report (bkp_session_save (insert_complete (delete_complete s p) p')) p'

-- The answer of the scripts to the application.
unfoldable pub answered : State → Text → TransferComplete → Option Text → Round
unfolding reported_again fault_of_script
answered s file_type p none = goes_on s
answered s file_type p (some t) =
    let fault = fault_of_script (some t) in
    if ends_process fault file_type then exits s else goes_on (reported_again s p fault)

unfoldable pub faulted : State → TransferComplete → Round
unfolding insert_complete delete_complete report bkp_session_save
faulted s p = goes_on (delete_complete (report (bkp_session_save (insert_complete s p)) p) p)

-- After the script of the transfer. The software version is set only for a firmware that is downloaded.
unfoldable pub transferred :
    State → Script → Option Text → (Text → Option Text) → TransferComplete → Option Fault → Round
unfolding answered faulted insert_complete bkp_session_save
transferred s e file_type version p (some f) = faulted s p
transferred s e none version p none = reads_null
transferred s e (some t) version p none =
    let p' : TransferComplete = record p { old_software_version = version t } in
    answered (bkp_session_save (insert_complete s p')) t p' e.apply_fault

unfoldable pub launched : State → Script → Option Text → Option Text → (Text → Option Text) → Round
unfolding transferred fault_of_script fault_index
launched s e none file_type version = reads_null
launched s e (some key) file_type version =
    let fault = fault_of_script e.transfer_fault in
    transferred s e file_type version (complete e key fault) fault

abbrev tail : {A : Type 0} → List A → List A
tail [] = []
tail (a ∷ bs) = bs

abbrev uncounted_head : {A : Type 0} → (A → ℤ) → List A → ℕ → ℕ
uncounted_head time [] n = n
uncounted_head time (a ∷ bs) n = uncounted (time a) n

unfoldable pub drop_download : Queues → Queues
drop_download q = record q {
  list_download = tail q.list_download;
  count_download_queue = uncounted_head download_time q.list_download q.count_download_queue;
}

unfoldable pub drop_upload : Queues → Queues
drop_upload q = record q {
  list_upload = tail q.list_upload;
  count_download_queue = uncounted_head upload_time q.list_upload q.count_download_queue;
}

unfoldable pub then_drop : (Queues → Queues) → Round → Round
then_drop drop (goes_on s) = goes_on (record s { queues = drop s.queues })
then_drop drop r = r

abbrev pub firmware_version : Option Text → Text → Option Text
firmware_version v file_type = if is_prefix (codes "1") file_type then v else none

-- The time of a request without delay is now.
abbrev pub is_due : ℤ → ℤ → Bool
is_due now time = if is_zero time then true else if gt time now then false else true

abbrev pub is_late : ℤ → ℤ → Bool
is_late now time = if is_zero time then false else gt now (plus time (pos 3600))

unfoldable pub first_download : Option Text → ℤ → Script → State → Download → Round
unfolding failed_transfer launched then_drop drop_download bkp_session_delete_download
    bkp_session_save
first_download softwareversion now e s d =
    let s1 : State = record s { bkp_tree = bkp_session_delete_download s.bkp_tree d } in
    if is_late now d.scheduled_time
    then then_drop drop_download (failed_transfer s1 e d.command_key (pos 0))
    else if is_due now d.scheduled_time
    then then_drop drop_download (
        launched (bkp_session_save s1) e d.command_key d.file_type
          (firmware_version softwareversion))
    else waits s

-- The argument is the software version of the device.
unfoldable pub thread_cwmp_rpc_cpe_download : Option Text → ℤ → Script → State → Round
unfolding first_download
thread_cwmp_rpc_cpe_download softwareversion now e s = elim s.queues.list_download [
  | [] ↦ waits s
  | d ∷ ds ↦ first_download softwareversion now e s d
]

unfoldable pub launched_upload : State → Script → Upload → Option Text → Round
unfolding launched then_drop drop_upload
launched_upload s e u none = reads_null
launched_upload s e u (some t) =
    then_drop drop_upload (launched s e u.command_key (some t) (λ v. none))

-- mutex_download is unlocked in place of mutex_upload.
unfoldable pub keeps_lock : Round → Round
keeps_lock (goes_on s) = left_locked s
keeps_lock r = r

unfoldable pub first_upload : ℤ → Script → State → Upload → Round
unfolding failed_transfer launched_upload keeps_lock then_drop drop_upload bkp_session_delete_upload
    bkp_session_save
first_upload now e s u =
    let s1 : State = record s { bkp_tree = bkp_session_delete_upload s.bkp_tree u } in
    if is_late now u.scheduled_time
    then keeps_lock (then_drop drop_upload (failed_transfer s1 e u.command_key (pos 2)))
    else if is_due now u.scheduled_time
    then launched_upload (bkp_session_save s1) e u u.file_type
    else waits s

unfoldable pub thread_cwmp_rpc_cpe_upload : ℤ → Script → State → Round
unfolding first_upload
thread_cwmp_rpc_cpe_upload now e s = elim s.queues.list_upload [
  | [] ↦ waits s
  | u ∷ us ↦ first_upload now e s u
]
