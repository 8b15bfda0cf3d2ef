-- ===== src/Rpc/Invariant.antt =====
-- The invariant of the queues of transfers over the messages that are handled (xml.c).
use icwmp.Prelude.{
  arith, ℕ, true, false, Option, none, some, List, [], ◌∷◌, if_elim, ◌≡◌, refl, All, leb, ◌==◌,
}
use icwmp.Prelude.Decimal.{ℤ, pos, plus, gt, is_zero}
use icwmp.Prelude.Text.{Text, codes}
use icwmp.Rpc.{State, Answer, response, fault_message, Fault, max_queue, texts, bkp_session_save}
use icwmp.Rpc.Inform.{
  max_schedule_inform_queue, delay_seconds_of, queue_schedule_inform,
  cwmp_handle_rpc_cpe_schedule_inform, cwmp_schedule_inform_remove_all,
}
use icwmp.Rpc.Messages.{
  Message, download_message, upload_message, schedule_inform_message, cancel_transfer_message,
  remove_downloads, remove_uploads, remove_schedule_downloads, remove_schedule_informs, state_of,
  state_after, download_round, upload_round, handle, handle_all,
}
use icwmp.Rpc.Launch.{
  Round, waits, goes_on, exits, left_locked, reads_null, thread_cwmp_rpc_cpe_download,
  thread_cwmp_rpc_cpe_upload,
}
use icwmp.Rpc.Rounds.{After, thread_download-Good, thread_upload-Good}
use icwmp.Rpc.Remove.{
  command_key_of, cancel_downloads, cancel_uploads, cancel_transfer,
  cwmp_handle_rpc_cpe_cancel_transfer, cwmp_scheduled_download_remove_all,
  cwmp_scheduled_upload_remove_all, schedule_download_remove_all,
}
use icwmp.Rpc.Steps.{
  Good, queue_download-Good, queue_upload-Good, queue_schedule_inform-Good, take_downloads-Good,
  take_uploads-Good, take_schedules-Good, cancel_downloads-Good, cancel_uploads-Good,
}
use icwmp.Rpc.Transfer.{
  queue_download, queue_upload, time_of, check_download, check_upload, read_download_args,
  read_upload_args, cwmp_handle_rpc_cpe_download, cwmp_handle_rpc_cpe_upload,
}
use icwmp.Store.Node.{Node}
use icwmp.Store.Requests.{Download, Upload, ScheduleDownload}

-- The time of a request with a delay is not 0.
abbrev pub OnClock : Message → Type 0
OnClock (download_message now (some n)) =
    let delay = (read_download_args n).download_delay in is_zero (time_of now delay) ≡ is_zero delay
OnClock (upload_message now (some n)) =
    let delay = (read_upload_args n).upload_delay in is_zero (time_of now delay) ≡ is_zero delay
OnClock m = Unit

abbrev pub Holds : Option State → Type 0
Holds none = Unit
Holds (some s) = Good s.queues

check_download-room :
    (count : ℕ) (t : Text) (d : Download)
    → check_download count t d ≡ none
    → leb max_queue count ≡ false
unfolding check_download
check_download-room count t d e = ground arith

check_upload-room :
    (count : ℕ) (t : Text) (u : Upload)
    → check_upload count t u ≡ none
    → leb max_queue count ≡ false
unfolding check_upload
check_upload-room count t u e = ground arith

module _ (s s' : State) (a : Answer) (g : Good s.queues) where
  unless_fault :
      (f : Option Fault)
      → (f ≡ none → Good s'.queues)
      → Holds (state_of (elim f [ some f ↦ some (fault_message f, s) | none ↦ some (a, s') ]))
  unless_fault none h = h refl
  unless_fault (some f) h = g

  unless_null :
      (o : Option Text) (check : Text → Option Fault)
      → ((t : Text) → check t ≡ none → Good s'.queues)
      → Holds (
          state_of (elim o [
            | none ↦ none
            | some t ↦ elim (check t) [ some f ↦ some (fault_message f, s) | none ↦ some (a, s') ]
          ]))
  unless_null none check h = tt
  unless_null (some t) check h = unless_fault (check t) (h t)

download_message-Good :
    (s : State) (now : ℤ) (n : Option Node)
    → OnClock (download_message now n)
    → Good s.queues
    → Holds (handle s (download_message now n))
unfolding handle cwmp_handle_rpc_cpe_download
download_message-Good s now none c g = g
download_message-Good s now (some n) c g =
    let a = read_download_args n in
    unless_null s (queue_download s now a.download_delay a.download)
      (response (codes "DownloadResponse")) g a.file_type
      (λ t. check_download s.queues.count_download_queue t a.download)
      (λ t e.
        queue_download-Good s now a.download_delay a.download c
          (check_download-room s.queues.count_download_queue t a.download e) g)

upload_message-Good :
    (s : State) (now : ℤ) (n : Option Node)
    → OnClock (upload_message now n)
    → Good s.queues
    → Holds (handle s (upload_message now n))
unfolding handle cwmp_handle_rpc_cpe_upload
upload_message-Good s now none c g = g
upload_message-Good s now (some n) c g =
    let a = read_upload_args n in
    unless_null s (queue_upload s now a.upload_delay a.upload) (response (codes "UploadResponse")) g
      a.file_type (λ t. check_upload s.queues.count_download_queue t a.upload)
      (λ t e.
        queue_upload-Good s now a.upload_delay a.upload c
          (check_upload-room s.queues.count_download_queue t a.upload e) g)

schedule_inform_message-Good :
    (s : State) (now : ℤ) (body : Node)
    → Good s.queues
    → Holds (handle s (schedule_inform_message now body))
unfolding handle cwmp_handle_rpc_cpe_schedule_inform
schedule_inform_message-Good s now body g =
    let ts = texts (codes "Body") body in
    if_elim (λ r. Holds (state_of r)) (delay_seconds_of ts == 0) _ _ (λ _. g)
      (λ _.
        if_elim (λ r. Holds (state_of r))
          (gt max_schedule_inform_queue s.count_schedule_inform_queue) _ _
          (λ _. keyed (command_key_of ts)) (λ _. g))
  where
    keyed :
        (k : Option Text)
        → Holds (
            state_of (elim k [
              | none ↦ none
              | some k ↦ some (
                response (codes "ScheduleInformResponse"),
                queue_schedule_inform s (record {
                  scheduled_time = plus now (pos (delay_seconds_of (texts (codes "Body") body)));
                  command_key = some k;
                }),
              )
            ]))
    keyed none = tt
    keyed (some k) = queue_schedule_inform-Good s _ g

cancel_transfer-Good : (s : State) (key : Text) → Good s.queues → Holds (cancel_transfer s key)
unfolding cancel_transfer
cancel_transfer-Good s key g =
    if_elim Holds _ (some (cancel_uploads (cancel_downloads s key) key)) none
      (λ _. cancel_uploads-Good (cancel_downloads s key) key (cancel_downloads-Good s key g))
      (λ _. tt)

cancel_transfer_message-Good :
    (s : State) (body : Node) → Good s.queues → Holds (handle s (cancel_transfer_message body))
unfolding handle cwmp_handle_rpc_cpe_cancel_transfer
cancel_transfer_message-Good s body g = keyed (command_key_of (texts (codes "Body") body))
  where
    answered :
        (o : Option State)
        → Holds o
        → Holds (
            state_of (elim o [
              | none ↦ none
              | some s' ↦ some (response (codes "CancelTransferResponse"), s')
            ]))
    answered none h = tt
    answered (some s') h = h

    keyed :
        (k : Option Text)
        → Holds (
            state_of (elim k [
              | none ↦ some (response (codes "CancelTransferResponse"), s)
              | some k ↦ elim (cancel_transfer s k) [
                | none ↦ none
                | some s' ↦ some (response (codes "CancelTransferResponse"), s')
              ]
            ]))
    keyed none = g
    keyed (some k) = answered (cancel_transfer s k) (cancel_transfer-Good s k g)

After-Holds : (r : Round) → After Good r → Holds (state_after r)
After-Holds (waits s) h = h
After-Holds (goes_on s) h = h
After-Holds (exits s) h = tt
After-Holds (left_locked s) h = tt
After-Holds reads_null h = tt

handle-Good : (s : State) (m : Message) → OnClock m → Good s.queues → Holds (handle s m)
unfolding handle cwmp_scheduled_download_remove_all cwmp_scheduled_upload_remove_all
    schedule_download_remove_all cwmp_schedule_inform_remove_all bkp_session_save
handle-Good s (download_message now n) c g = download_message-Good s now n c g
handle-Good s (upload_message now n) c g = upload_message-Good s now n c g
handle-Good s (schedule_inform_message now body) c g = schedule_inform_message-Good s now body g
handle-Good s (cancel_transfer_message body) c g = cancel_transfer_message-Good s body g
handle-Good s (download_round v now e) c g =
    After-Holds (thread_cwmp_rpc_cpe_download v now e s) (thread_download-Good v now e s g)
handle-Good s (upload_round now e) c g =
    After-Holds (thread_cwmp_rpc_cpe_upload now e s) (thread_upload-Good now e s g)
handle-Good s remove_downloads c g =
    take_downloads-Good (λ (d : Download). true) s.queues s.bkp_tree g
handle-Good s remove_uploads c g = take_uploads-Good (λ (u : Upload). true) s.queues s.bkp_tree g
handle-Good s remove_schedule_downloads c g =
    take_schedules-Good (λ (d : ScheduleDownload). true) s.queues s.bkp_tree g
handle-Good s remove_schedule_informs c g = record {
  downloads = g.downloads;
  uploads = g.uploads;
  schedules = g.schedules;
  informs = tt;
  counter = g.counter;
  limit = g.limit;
}

-- Download, Upload, ScheduleInform and CancelTransfer messages, whatever they hold, rounds of the
-- threads that run downloads and uploads, whatever the scripts answer, and the removal of all
-- requests of a kind, in any order, keep the queues of downloads, uploads, scheduled downloads and
-- scheduled informs in the order of their times, and keep `count_download_queue` equal to the
-- number of transfers in them whose time is not 0, and at most 10. The queues are so before, and no
-- request with a delay gets the time 0. ScheduleDownload is not among the messages. The run ends
-- where a NULL pointer is read, the process exits, or a late upload leaves mutex_upload locked.
pub handle_all-Good :
    (s : State) (ms : List Message) → All OnClock ms → Good s.queues → Holds (handle_all s ms)
unfolding handle_all
handle_all-Good s [] c g = g
handle_all-Good s (m ∷ ms) (c, cs) g =
    after (handle s m) (handle-Good s m c g) (λ s' h. handle_all-Good s' ms cs h)
  where
    after :
        (o : Option State)
        → Holds o
        → ((s' : State) → Good s'.queues → Holds (handle_all s' ms))
        → Holds (elim o [ none ↦ none | some s' ↦ handle_all s' ms ])
    after none h f = tt
    after (some s') h f = f s' h
