-- ===== src/Rpc/Rounds.antt =====
-- The queues of transfers after a round of the threads that run them (xml.c).
use icwmp.Prelude.{arith, ◌+◌, Option, none, some, List, [], ◌∷◌, if_elim, ◌≡◌}
use icwmp.Prelude.Decimal.{ℤ, pos}
use icwmp.Prelude.Text.{Text}
use icwmp.Rpc.{State, bkp_session_save, Fault}
use icwmp.Rpc.Launch.{
  ends_process, reported_again, first_download, first_upload, launched_upload, firmware_version,
  Script, Round, waits, goes_on, exits, left_locked, keeps_lock, reads_null, insert_complete,
  delete_complete, report, failed_transfer, answered, transferred, faulted, launched, drop_download,
  drop_upload, then_drop, thread_cwmp_rpc_cpe_download, thread_cwmp_rpc_cpe_upload, fault_of_script,
  is_late, is_due,
}
use icwmp.Rpc.Steps.{Good}
use icwmp.Session.{Cwmp}
use icwmp.Store.Loading.{Queues, download_time, upload_time, schedule_time}
use icwmp.Store.Requests.{Download, Upload, TransferComplete}
use icwmp.Store.Writers.{bkp_session_delete_download, bkp_session_delete_upload}
use icwmp.Store.Sorted.{SortedBy, timed}

abbrev pub After : (Queues → Type 0) → Round → Type 0
After P (waits s) = P s.queues
After P (goes_on s) = P s.queues
After P (exits s) = P s.queues
After P (left_locked s) = P s.queues
After P reads_null = Unit

module _ (P : Queues → Type 0)
    (reported : (q : Queues) (ts : List TransferComplete) (c : Cwmp)
      → P q
      → P (record q { transfers = ts; cwmp = c })) where
  failed_transfer-keeps :
      (s : State) (e : Script) (key : Option Text) (type : ℤ)
      → P s.queues
      → After P (failed_transfer s e key type)
  unfolding failed_transfer report insert_complete
  failed_transfer-keeps s e none type p = tt
  failed_transfer-keeps s e (some key) type p = reported s.queues _ _ p

  reported_again-keeps :
      (s : State) (c : TransferComplete) (f : Option Fault)
      → P s.queues
      → P (reported_again s c f).queues
  unfolding reported_again report insert_complete delete_complete bkp_session_save
  reported_again-keeps s c f p = reported s.queues _ _ p

  answered-keeps :
      (s : State) (t : Text) (c : TransferComplete) (o : Option Text)
      → P s.queues
      → After P (answered s t c o)
  unfolding answered
  answered-keeps s t c none p = p
  answered-keeps s t c (some v) p =
      let f = fault_of_script (some v) in
      if_elim (After P) (ends_process f t) (exits s) (goes_on (reported_again s c f)) (λ _. p)
        (λ _. reported_again-keeps s c f p)

  transferred-keeps :
      (s : State) (e : Script) (file_type : Option Text) (version : Text → Option Text)
      → (c : TransferComplete) (f : Option Fault) → P s.queues
      → After P (transferred s e file_type version c f)
  unfolding transferred faulted report insert_complete delete_complete bkp_session_save
  transferred-keeps s e file_type version c (some f) p = reported s.queues _ _ p
  transferred-keeps s e none version c none p = tt
  transferred-keeps s e (some t) version c none p =
      let c' : TransferComplete = record c { old_software_version = version t } in
      answered-keeps (bkp_session_save (insert_complete s c')) t c' e.apply_fault p

  launched-keeps :
      (s : State) (e : Script) (key file_type : Option Text) (version : Text → Option Text)
      → P s.queues
      → After P (launched s e key file_type version)
  unfolding launched
  launched-keeps s e none file_type version p = tt
  launched-keeps s e (some key) file_type version p =
      transferred-keeps s e file_type version _ (fault_of_script e.transfer_fault) p

-- The queues are good, also without their first request.
abbrev Both : (Queues → Queues) → Queues → Type 0
Both drop q = Good q × Good (drop q)

then_drop-Good :
    (drop : Queues → Queues) (r : Round) → After (Both drop) r → After Good (then_drop drop r)
unfolding then_drop
then_drop-Good drop (waits s) h = h.0
then_drop-Good drop (goes_on s) h = h.1
then_drop-Good drop (exits s) h = h.0
then_drop-Good drop (left_locked s) h = h.0
then_drop-Good drop reads_null h = tt

same-Good :
    (q : Queues) (ts : List TransferComplete) (c : Cwmp)
    → Good q
    → Good (record q { transfers = ts; cwmp = c })
same-Good q ts c g = record {
  downloads = g.downloads;
  uploads = g.uploads;
  schedules = g.schedules;
  informs = g.informs;
  counter = g.counter;
  limit = g.limit;
}

drop_download-Good : (q : Queues) → Good q → Good (drop_download q)
unfolding drop_download
drop_download-Good q g = from q.list_download g.downloads g.counter
  where
    from :
        (ds : List Download)
        → SortedBy download_time ds
        → q.count_download_queue
          ≡ timed download_time ds
            + (timed upload_time q.list_upload + timed schedule_time q.list_schedule_download)
        → Good (drop_download (record q { list_download = ds }))
    from [] h e = record {
      downloads = tt;
      uploads = g.uploads;
      schedules = g.schedules;
      informs = g.informs;
      counter = e;
      limit = g.limit;
    }
    from (d ∷ ds) (h, hs) e = record {
      downloads = hs;
      uploads = g.uploads;
      schedules = g.schedules;
      informs = g.informs;
      counter = ground arith;
      limit = ground (arith, g.limit);
    }

drop_upload-Good : (q : Queues) → Good q → Good (drop_upload q)
unfolding drop_upload
drop_upload-Good q g = from q.list_upload g.uploads (omega (arith, g.counter))
  where
    from :
        (us : List Upload)
        → SortedBy upload_time us
        → q.count_download_queue
          ≡ timed upload_time us
            + (timed download_time q.list_download + timed schedule_time q.list_schedule_download)
        → Good (drop_upload (record q { list_upload = us }))
    from [] h e = record {
      downloads = g.downloads;
      uploads = tt;
      schedules = g.schedules;
      informs = g.informs;
      counter = omega (arith, e);
      limit = g.limit;
    }
    from (u ∷ us) (h, hs) e = record {
      downloads = g.downloads;
      uploads = hs;
      schedules = g.schedules;
      informs = g.informs;
      counter = ground arith;
      limit = ground (arith, g.limit);
    }

reported_queues :
    (drop : Queues → Queues)
    → ((q : Queues) → Good q → Good (drop q))
    → (q : Queues) (ts : List TransferComplete) (c : Cwmp) → Both drop q
    → Both drop (record q { transfers = ts; cwmp = c })
reported_queues drop h q ts c g =
    let g' = same-Good q ts c g.0 in (g', h (record q { transfers = ts; cwmp = c }) g')

first_download-Good :
    (v : Option Text) (now : ℤ) (e : Script) (s : State) (d : Download)
    → Good s.queues
    → After Good (first_download v now e s d)
unfolding first_download bkp_session_save
first_download-Good v now e s d g =
    let s1 : State = record s { bkp_tree = bkp_session_delete_download s.bkp_tree d } in
    let keeps = reported_queues drop_download drop_download-Good in
    let both : Both drop_download s.queues = (g, drop_download-Good s.queues g) in
    let late = failed_transfer s1 e d.command_key (pos 0) in
    let due = launched (bkp_session_save s1) e d.command_key d.file_type (firmware_version v) in
    if_elim (After Good) (is_late now d.scheduled_time) (then_drop drop_download late) _
      (λ _.
        then_drop-Good drop_download late
          (failed_transfer-keeps (Both drop_download) keeps s1 e d.command_key (pos 0) both))
      (λ _.
        if_elim (After Good) (is_due now d.scheduled_time) (then_drop drop_download due) (waits s)
          (λ _. then_drop-Good drop_download due (
            launched-keeps (Both drop_download) keeps (bkp_session_save s1) e d.command_key
              d.file_type (firmware_version v) both))
          (λ _. g))

launched_upload-Good :
    (s : State) (e : Script) (u : Upload) (t : Option Text)
    → Good s.queues
    → After Good (launched_upload s e u t)
unfolding launched_upload
launched_upload-Good s e u none g = tt
launched_upload-Good s e u (some t) g =
    then_drop-Good drop_upload (launched s e u.command_key (some t) (λ v. none)) (
      launched-keeps (Both drop_upload) (reported_queues drop_upload drop_upload-Good) s e
        u.command_key (some t) (λ v. none) (g, drop_upload-Good s.queues g))

keeps_lock-Good : (r : Round) → After Good r → After Good (keeps_lock r)
unfolding keeps_lock
keeps_lock-Good (waits s) h = h
keeps_lock-Good (goes_on s) h = h
keeps_lock-Good (exits s) h = h
keeps_lock-Good (left_locked s) h = h
keeps_lock-Good reads_null h = tt

first_upload-Good :
    (now : ℤ) (e : Script) (s : State) (u : Upload)
    → Good s.queues
    → After Good (first_upload now e s u)
unfolding first_upload bkp_session_save
first_upload-Good now e s u g =
    let s1 : State = record s { bkp_tree = bkp_session_delete_upload s.bkp_tree u } in
    let late = failed_transfer s1 e u.command_key (pos 2) in
    if_elim (After Good) (is_late now u.scheduled_time) (keeps_lock (then_drop drop_upload late)) _
      (λ _. keeps_lock-Good (then_drop drop_upload late) (
        then_drop-Good drop_upload late (
          failed_transfer-keeps (Both drop_upload) (reported_queues drop_upload drop_upload-Good) s1
            e u.command_key (pos 2) (g, drop_upload-Good s.queues g))))
      (λ _.
        if_elim (After Good) (is_due now u.scheduled_time)
          (launched_upload (bkp_session_save s1) e u u.file_type) (waits s)
          (λ _. launched_upload-Good (bkp_session_save s1) e u u.file_type g) (λ _. g))

pub thread_download-Good :
    (v : Option Text) (now : ℤ) (e : Script) (s : State)
    → Good s.queues
    → After Good (thread_cwmp_rpc_cpe_download v now e s)
unfolding thread_cwmp_rpc_cpe_download
thread_download-Good v now e s g = first s.queues.list_download
  where
    first :
        (ds : List Download)
        → After Good (elim ds [ [] ↦ waits s | d ∷ ds ↦ first_download v now e s d ])
    first [] = g
    first (d ∷ ds) = first_download-Good v now e s d g

pub thread_upload-Good :
    (now : ℤ) (e : Script) (s : State)
    → Good s.queues
    → After Good (thread_cwmp_rpc_cpe_upload now e s)
unfolding thread_cwmp_rpc_cpe_upload
thread_upload-Good now e s g = first s.queues.list_upload
  where
    first :
        (us : List Upload) → After Good (elim us [ [] ↦ waits s | u ∷ us ↦ first_upload now e s u ])
    first [] = g
    first (u ∷ us) = first_upload-Good now e s u g
