-- ===== src/Rpc/Remove.antt =====
-- Requests leave the queues: CancelTransfer, and the functions cwmp_*_remove_all of xml.c.
use icwmp.Prelude.{
  ℕ, ◌-◌, Bool, true, false, ◌&&◌, Option, none, some, List, [], ◌∷◌, if◌then◌else◌,
}
use icwmp.Prelude.Decimal.{ℤ, is_zero}
use icwmp.Prelude.Text.{Text, codes, str_eq}
use icwmp.Rpc.{State, bkp_session_save, Answer, response, texts}
use icwmp.Store.Loading.{download_time, upload_time, schedule_time}
use icwmp.Store.Node.{Node}
use icwmp.Store.Requests.{Download, Upload, ScheduleDownload}
use icwmp.Store.Writers.{
  bkp_session_delete_download, bkp_session_delete_upload, bkp_session_delete_schedule_download,
  bkp_session_delete_apply_schedule_download,
}

-- `if (time != 0) count_download_queue--;`
abbrev pub uncounted : ℤ → ℕ → ℕ
uncounted time n = if is_zero time then n else n - 1

-- strcmp reads the key of every request of a queue, so all must have one.
abbrev pub has_key : Text → Option Text → Bool
has_key key none = false
has_key key (some k) = str_eq k key

-- The loop over a queue: what stays in it, the counter, and the backup tree.
unfoldable pub cancel_in {ℓ} :
    {A : Type ℓ} → (A → Bool) → (A → ℤ) → (Node → A → Node) → List A → ℕ → Node → List A × ℕ × Node
cancel_in chosen time delete [] count tree = ([], count, tree)
cancel_in chosen time delete (a ∷ bs) count tree =
    let without = cancel_in chosen time delete bs (uncounted (time a) count) (delete tree a) in
    let rest = cancel_in chosen time delete bs count tree in
    if chosen a then without else (a ∷ rest.0, rest.1, rest.2)

-- Whether anything is deleted: the tree is saved after each deletion, so it is saved as it is at the end.
abbrev pub any {ℓ} : {A : Type ℓ} → (A → Bool) → List A → Bool
any f [] = false
any f (a ∷ bs) = if f a then true else any f bs

unfoldable pub cancel_downloads : State → Text → State
unfolding cancel_in bkp_session_delete_download bkp_session_save
cancel_downloads s key =
    let r =
      cancel_in (λ (d : Download). has_key key d.command_key) download_time
        bkp_session_delete_download s.queues.list_download s.queues.count_download_queue
        s.bkp_tree in
    let s' = record s {
      queues = record (s.queues) { list_download = r.0; count_download_queue = r.1 };
      bkp_tree = r.2;
    } in
    if any (λ (d : Download). has_key key d.command_key) s.queues.list_download
    then bkp_session_save s'
    else s'

unfoldable pub cancel_uploads : State → Text → State
unfolding cancel_in bkp_session_delete_upload bkp_session_save
cancel_uploads s key =
    let r =
      cancel_in (λ (u : Upload). has_key key u.command_key) upload_time bkp_session_delete_upload
        s.queues.list_upload s.queues.count_download_queue s.bkp_tree in
    let s' = record s {
      queues = record (s.queues) { list_upload = r.0; count_download_queue = r.1 };
      bkp_tree = r.2;
    } in
    if any (λ (u : Upload). has_key key u.command_key) s.queues.list_upload
    then bkp_session_save s'
    else s'

abbrev all_keyed {ℓ} : {A : Type ℓ} → (A → Option Text) → List A → Bool
all_keyed f [] = true
all_keyed f (a ∷ bs) = elim (f a) [ none ↦ false | some k ↦ all_keyed f bs ]

-- The result is none where strcmp reads a NULL pointer.
unfoldable pub cancel_transfer : State → Text → Option State
unfolding cancel_downloads cancel_uploads
cancel_transfer s key =
    if all_keyed (λ (d : Download). d.command_key) s.queues.list_download
      && all_keyed (λ (u : Upload). u.command_key) s.queues.list_upload
    then some (cancel_uploads (cancel_downloads s key) key)
    else none

-- The last text of an element `CommandKey`.
unfoldable pub command_key_of : List (Text × Text) → Option Text
command_key_of [] = none
command_key_of ((m, v) ∷ ts) = elim (command_key_of ts) [
  | some k ↦ some k
  | none ↦ if str_eq m (codes "CommandKey") then some v else none
]

unfoldable pub cwmp_handle_rpc_cpe_cancel_transfer : State → Node → Option (Answer × State)
unfolding texts command_key_of cancel_transfer
cwmp_handle_rpc_cpe_cancel_transfer s body = elim (command_key_of (texts (codes "Body") body)) [
  | none ↦ some (response (codes "CancelTransferResponse"), s)
  | some k ↦ elim (cancel_transfer s k) [
    | none ↦ none
    | some s' ↦ some (response (codes "CancelTransferResponse"), s')
  ]
]

unfoldable pub cwmp_scheduled_download_remove_all : State → State
unfolding cancel_in bkp_session_delete_download
cwmp_scheduled_download_remove_all s =
    let r =
      cancel_in (λ (d : Download). true) download_time bkp_session_delete_download
        s.queues.list_download s.queues.count_download_queue s.bkp_tree in
    record s {
      queues = record (s.queues) { list_download = r.0; count_download_queue = r.1 };
      bkp_tree = r.2;
    }

unfoldable pub cwmp_scheduled_upload_remove_all : State → State
unfolding cancel_in bkp_session_delete_upload
cwmp_scheduled_upload_remove_all s =
    let r =
      cancel_in (λ (u : Upload). true) upload_time bkp_session_delete_upload s.queues.list_upload
        s.queues.count_download_queue s.bkp_tree in
    record s {
      queues = record (s.queues) { list_upload = r.0; count_download_queue = r.1 };
      bkp_tree = r.2;
    }

-- cwmp_scheduled_Download_remove_all, of the requests of ScheduleDownload
unfoldable pub schedule_download_remove_all : State → State
unfolding cancel_in bkp_session_delete_schedule_download
schedule_download_remove_all s =
    let r =
      cancel_in (λ (d : ScheduleDownload). true) schedule_time bkp_session_delete_schedule_download
        s.queues.list_schedule_download s.queues.count_download_queue s.bkp_tree in
    record s {
      queues = record (s.queues) { list_schedule_download = r.0; count_download_queue = r.1 };
      bkp_tree = r.2;
    }

abbrev delete_all {ℓ} : {A : Type ℓ} → (Node → A → Node) → List A → Node → Node
delete_all delete [] tree = tree
delete_all delete (a ∷ bs) tree = delete_all delete bs (delete tree a)

-- Nothing is counted here.
unfoldable pub cwmp_apply_scheduled_download_remove_all : State → State
unfolding bkp_session_delete_apply_schedule_download
cwmp_apply_scheduled_download_remove_all s = record s {
  queues = record (s.queues) { list_apply_schedule_download = [] };
  bkp_tree =
      delete_all bkp_session_delete_apply_schedule_download s.queues.list_apply_schedule_download
        s.bkp_tree;
}
