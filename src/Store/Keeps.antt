-- ===== src/Store/Keeps.antt =====
-- To prove something of the queues after the loading, prove that each function that adds a request keeps it.
use icwmp.Prelude.{Option, if_elim}
use icwmp.Prelude.Text.{Text, codes, str_eq}
use icwmp.Session.{Cwmp}
use icwmp.Store.Loading.{
  Queues, add_schedule_inform, add_download, add_schedule_download, add_apply_schedule_download,
  add_upload, add_change_du_state, add_du_state_change_complete, add_transfer_complete,
  load_schedule_inform, load_download, load_schedule_download, load_apply_schedule_download,
  load_change_du_state, load_upload, load_du_state_change_complete, load_transfer_complete,
}
use icwmp.Store.Node.{Node, null, element, text}
use icwmp.Store.States.{read_change_du_state}
use icwmp.Store.Reload.{load_requests, load_node}
use icwmp.Store.Requests.{
  ScheduleInform, Download, ScheduleDownload, ApplyScheduleDownload, ChangeDuState, Upload,
  TransferComplete, DuStateChangeComplete,
}

-- What each of the functions that add a request keeps.
pub record Keeps (v : Option Text) (P : Queues → Type 0) : Type 0 where
  pub event : (s : Queues) (c : Cwmp) → P s → P (record s { cwmp = c })
  pub schedule_inform : (s : Queues) (r : ScheduleInform) → P s → P (add_schedule_inform s r)
  pub download : (s : Queues) (r : Download) → P s → P (add_download s r)
  pub schedule_download : (s : Queues) (r : ScheduleDownload) → P s → P (add_schedule_download s r)
  pub apply : (s : Queues) (r : ApplyScheduleDownload) → P s → P (add_apply_schedule_download s r)
  pub upload : (s : Queues) (r : Upload) → P s → P (add_upload s r)
  pub change_du_state : (s : Queues) (r : ChangeDuState) → P s → P (add_change_du_state s r)
  pub du_complete :
      (s : Queues) (r : DuStateChangeComplete) → P s → P (add_du_state_change_complete s r)
  pub transfer : (s : Queues) (r : TransferComplete) → P s → P (add_transfer_complete v s r)

load_node-keeps :
    (v : Option Text) (P : Queues → Type 0)
    → Keeps v P
    → (s : Queues) (m : Text) (c : Node) → P s
    → P (load_node v s m c)
unfolding load_node load_download load_upload load_transfer_complete load_schedule_inform
    load_change_du_state load_du_state_change_complete load_schedule_download
    load_apply_schedule_download
load_node-keeps v P k s m c h =
    if_elim P (str_eq m (codes "queue_event")) _ _ (λ _. k.event s _ h)
      (λ _.
        if_elim P (str_eq m (codes "download")) _ _ (λ _. k.download s _ h)
          (λ _.
            if_elim P (str_eq m (codes "upload")) _ _ (λ _. k.upload s _ h)
              (λ _.
                if_elim P (str_eq m (codes "transfer_complete")) _ _ (λ _. k.transfer s _ h)
                  (λ _.
                    if_elim P (str_eq m (codes "schedule_inform")) _ _
                      (λ _. k.schedule_inform s _ h)
                      (λ _.
                        if_elim P (str_eq m (codes "change_du_state")) _ _
                          (λ _. k.change_du_state s (read_change_du_state c) h)
                          (λ _.
                            if_elim P (str_eq m (codes "du_state_change_complete")) _ _
                              (λ _. k.du_complete s _ h)
                              (λ _.
                                if_elim P (str_eq m (codes "schedule_download")) _ _
                                  (λ _. k.schedule_download s _ h)
                                  (λ _.
                                    if_elim P (str_eq m (codes "apply_schedule_download")) _ _
                                      (λ _. k.apply s _ h) (λ _. h)))))))))

pub load_requests-keeps :
    (v : Option Text) (P : Queues → Type 0)
    → Keeps v P
    → (s : Queues) (t : Node) → P s
    → P (load_requests v s t)
unfolding load_requests
load_requests-keeps v P k s null h = h
load_requests-keeps v P k s (text w n) h = load_requests-keeps v P k s n h
load_requests-keeps v P k s (element m c n) h =
    load_requests-keeps v P k (load_node v s m c) n (load_node-keeps v P k s m c h)
