-- ===== src/Rpc/Steps.antt =====
-- The queues of transfers under the RPCs of the ACS (xml.c): their order, their counter and its bound.
use icwmp.Prelude.{arith, ◌+◌, ◌≤◌, Bool, false, if_elim, ◌≡◌, leb}
use icwmp.Prelude.Decimal.{ℤ, is_zero}
use icwmp.Prelude.Text.{Text}
use icwmp.Rpc.{State, max_queue, bkp_session_save}
use icwmp.Rpc.Inform.{queue_schedule_inform}
use icwmp.Rpc.Remove.{any, cancel_in, has_key, cancel_downloads, cancel_uploads}
use icwmp.Rpc.Transfer.{time_of, queue_download, queue_upload}
use icwmp.Store.Loading.{Queues, inform_time, download_time, upload_time, schedule_time}
use icwmp.Store.Node.{Node}
use icwmp.Store.Requests.{ScheduleInform, Download, Upload, ScheduleDownload}
use icwmp.Store.Writers.{
  bkp_session_delete_download, bkp_session_delete_upload, bkp_session_delete_schedule_download,
}
use icwmp.Store.Sorted.{SortedBy, timed}
use icwmp.Rpc.Ordered.{add_before-SortedBy, timed-add_before, cancel_in-SortedBy, cancel_in-timed}

-- The lists are in order, and the counter is the number of requests with a time, which is at most the limit.
pub record Good (q : Queues) : Type 0 where
  pub downloads : SortedBy download_time q.list_download
  pub uploads : SortedBy upload_time q.list_upload
  pub schedules : SortedBy schedule_time q.list_schedule_download
  pub informs : SortedBy inform_time q.list_schedule_inform
  pub counter :
      q.count_download_queue
      ≡ timed download_time q.list_download
        + (timed upload_time q.list_upload + timed schedule_time q.list_schedule_download)
  pub limit : q.count_download_queue ≤ max_queue

pub queue_download-Good :
    (s : State) (now delay : ℤ) (d : Download)
    → is_zero (time_of now delay) ≡ is_zero delay
    → leb max_queue s.queues.count_download_queue ≡ false
    → Good s.queues
    → Good (queue_download s now delay d).queues
unfolding queue_download bkp_session_save
queue_download-Good s now delay d clock room g =
    let d' : Download = record d { scheduled_time = time_of now delay } in
    record {
      downloads = add_before-SortedBy download_time d' s.queues.list_download g.downloads;
      uploads = g.uploads;
      schedules = g.schedules;
      counter = ground (arith, timed-add_before download_time d' s.queues.list_download, g.counter);
      informs = g.informs;
      limit = ground arith;
    }

pub queue_upload-Good :
    (s : State) (now delay : ℤ) (u : Upload)
    → is_zero (time_of now delay) ≡ is_zero delay
    → leb max_queue s.queues.count_download_queue ≡ false
    → Good s.queues
    → Good (queue_upload s now delay u).queues
unfolding queue_upload bkp_session_save
queue_upload-Good s now delay u clock room g =
    let u' : Upload = record u { scheduled_time = time_of now delay } in
    record {
      downloads = g.downloads;
      uploads = add_before-SortedBy upload_time u' s.queues.list_upload g.uploads;
      schedules = g.schedules;
      counter = ground (arith, timed-add_before upload_time u' s.queues.list_upload, g.counter);
      informs = g.informs;
      limit = ground arith;
    }

pub take_downloads-Good :
    (chosen : Download → Bool) (q : Queues) (t : Node)
    → Good q
    → let r =
        cancel_in chosen download_time bkp_session_delete_download q.list_download
          q.count_download_queue t in
      Good (record q { list_download = r.0; count_download_queue = r.1 })
take_downloads-Good chosen q t g =
    let (e, le) =
      cancel_in-timed download_time chosen bkp_session_delete_download q.list_download
        q.count_download_queue
        (timed upload_time q.list_upload + timed schedule_time q.list_schedule_download) t
        g.counter in
    record {
      downloads =
          cancel_in-SortedBy download_time chosen bkp_session_delete_download q.list_download
            q.count_download_queue t g.downloads;
      uploads = g.uploads;
      schedules = g.schedules;
      informs = g.informs;
      counter = e;
      limit = omega (arith, le, g.limit);
    }

pub take_uploads-Good :
    (chosen : Upload → Bool) (q : Queues) (t : Node)
    → Good q
    → let r =
        cancel_in chosen upload_time bkp_session_delete_upload q.list_upload q.count_download_queue
          t in
      Good (record q { list_upload = r.0; count_download_queue = r.1 })
take_uploads-Good chosen q t g =
    let (e, le) =
      cancel_in-timed upload_time chosen bkp_session_delete_upload q.list_upload
        q.count_download_queue
        (timed download_time q.list_download + timed schedule_time q.list_schedule_download) t
        (omega (arith, g.counter)) in
    record {
      downloads = g.downloads;
      uploads =
          cancel_in-SortedBy upload_time chosen bkp_session_delete_upload q.list_upload
            q.count_download_queue t g.uploads;
      schedules = g.schedules;
      informs = g.informs;
      counter = omega (arith, e);
      limit = omega (arith, le, g.limit);
    }

pub take_schedules-Good :
    (chosen : ScheduleDownload → Bool) (q : Queues) (t : Node)
    → Good q
    → let r =
        cancel_in chosen schedule_time bkp_session_delete_schedule_download q.list_schedule_download
          q.count_download_queue t in
      Good (record q { list_schedule_download = r.0; count_download_queue = r.1 })
take_schedules-Good chosen q t g =
    let (e, le) =
      cancel_in-timed schedule_time chosen bkp_session_delete_schedule_download
        q.list_schedule_download q.count_download_queue
        (timed download_time q.list_download + timed upload_time q.list_upload) t
        (omega (arith, g.counter)) in
    record {
      downloads = g.downloads;
      uploads = g.uploads;
      schedules =
          cancel_in-SortedBy schedule_time chosen bkp_session_delete_schedule_download
            q.list_schedule_download q.count_download_queue t g.schedules;
      informs = g.informs;
      counter = omega (arith, e);
      limit = omega (arith, le, g.limit);
    }

pub cancel_downloads-Good :
    (s : State) (key : Text) → Good s.queues → Good (cancel_downloads s key).queues
unfolding cancel_downloads bkp_session_save
cancel_downloads-Good s key g =
    let chosen = λ (d : Download). has_key key d.command_key in
    let g' = take_downloads-Good chosen s.queues s.bkp_tree g in
    if_elim (λ (s' : State). Good s'.queues) (any chosen s.queues.list_download) _ _ (λ _. g')
      (λ _. g')

pub cancel_uploads-Good :
    (s : State) (key : Text) → Good s.queues → Good (cancel_uploads s key).queues
unfolding cancel_uploads bkp_session_save
cancel_uploads-Good s key g =
    let chosen = λ (u : Upload). has_key key u.command_key in
    let g' = take_uploads-Good chosen s.queues s.bkp_tree g in
    if_elim (λ (s' : State). Good s'.queues) (any chosen s.queues.list_upload) _ _ (λ _. g')
      (λ _. g')

pub queue_schedule_inform-Good :
    (s : State) (r : ScheduleInform) → Good s.queues → Good (queue_schedule_inform s r).queues
unfolding queue_schedule_inform bkp_session_save
queue_schedule_inform-Good s r g = record {
  downloads = g.downloads;
  uploads = g.uploads;
  schedules = g.schedules;
  informs = add_before-SortedBy inform_time r s.queues.list_schedule_inform g.informs;
  counter = g.counter;
  limit = g.limit;
}
