-- ===== src/Tests/StoreTests.antt =====
-- The backup file (backupSession.c) with a few requests in it.
use icwmp.Prelude.{ℕ, Bool, true, false, none, some, List, [], ◌∷◌, ◌≡◌, refl}
use icwmp.Prelude.Decimal.{pos, negsuc, sprintf_d, atoi}
use icwmp.Prelude.Text.{Text, codes, strcmp}
use icwmp.Event.{boot, m_download}
use icwmp.Session.Backup.{queue, send}
use icwmp.Store.Delete.{
  delete_request-save_request, save_request-idempotent, apply_schedule_download_twice,
}
use icwmp.Store.Loading.{Queues}
use icwmp.Store.LoadSaved.{Arrived, add_request, load_requests-save_request}
use icwmp.Store.Node.{
  insert_unless_found, Node, null, keys_left, node_with_keys, bkp_session_node_found, insert_node,
  insert_all,
}
use icwmp.Store.Refine.{
  on_tree, on_list, run_ops, tree_refines-list, EventOp, insert_event, delete_event,
  insert_parameter, move_to_send,
}
use icwmp.Store.Refine.Found.{nodes}
use icwmp.Store.Reload.{load_requests}
use icwmp.Store.Request.{download, upload, save_request, delete_request}
use icwmp.Store.Requests.{Download, Upload, ApplyScheduleDownload, TimeInterval}
use icwmp.Store.Sorted.{InOrder, Counted, load_requests-InOrder, load_requests-Counted}
use icwmp.Store.Writers.{
  bkp_session_insert_download, bkp_session_insert_apply_schedule_download,
  apply_schedule_download_keys,
}
use icwmp.Tests.QueueTests.{fresh}

sprintf_d_tests :
    (sprintf_d (pos 0) ≡ codes "0")
    × (sprintf_d (pos 1450) ≡ codes "1450")
    × (sprintf_d (negsuc 41) ≡ codes "-42")
unfolding sprintf_d
sprintf_d_tests = (refl, refl, refl)

atoi_tests :
    (atoi (codes " 42 apples") ≡ pos 42)
    × (atoi (codes "-7") ≡ negsuc 6)
    × (atoi (codes "none") ≡ pos 0)
unfolding atoi
atoi_tests = (refl, refl, refl)

abbrev flag : Bool → Text
flag true = codes "1"
flag false = codes "0"

abbrev image : ℕ → Download
image time = record {
  scheduled_time = pos time;
  file_size = pos 4096;
  command_key = some (codes "key 1");
  file_type = some (codes "1 Firmware Upgrade Image");
  url = some (codes "http://acs/fw");
  username = none;
  password = none;
}

abbrev log_file : Upload
log_file = record {
  scheduled_time = pos 0;
  command_key = some (codes "key 2");
  file_type = some (codes "2 Vendor Log File");
  url = some (codes "http://acs/log");
  username = some (codes "user");
  password = none;
  f_instance = some (codes "1");
}

abbrev interval : TimeInterval
interval = record { windowstart = pos 5; windowend = pos 9; maxretries = pos 1 }

abbrev apply_image : ApplyScheduleDownload
apply_image = record {
  start_time = some (codes "now");
  command_key = some (codes "key 3");
  file_type = none;
  interval1 = interval;
  interval2 = interval;
}

abbrev pub no_requests : Queues
no_requests = record {
  list_schedule_inform = [];
  list_download = [];
  list_schedule_download = [];
  list_apply_schedule_download = [];
  list_change_du_state = [];
  list_upload = [];
  count_download_queue = 0;
  transfers = [];
  du_states = [];
  cwmp = fresh;
}

abbrev one_request : Node
one_request = save_request flag null (download (image 70))

load_requests-save_request_example :
    let without = load_requests none no_requests one_request in
    let loaded = load_requests none no_requests (save_request flag one_request (upload log_file)) in
    Arrived (upload log_file) without loaded × (loaded ≡ add_request none without (upload log_file))
unfolding bkp_session_node_found node_with_keys keys_left strcmp bkp_session_insert_download
    insert_unless_found
load_requests-save_request_example =
    load_requests-save_request flag none no_requests one_request (upload log_file) refl

delete_request-save_request_example :
    delete_request (save_request flag one_request (upload log_file)) (upload log_file) ≡ one_request
unfolding bkp_session_node_found node_with_keys keys_left strcmp bkp_session_insert_download
    insert_unless_found
delete_request-save_request_example =
    delete_request-save_request flag one_request (upload log_file) refl

save_request-idempotent_example :
    save_request flag (save_request flag one_request (upload log_file)) (upload log_file)
    ≡ save_request flag one_request (upload log_file)
save_request-idempotent_example = save_request-idempotent flag one_request (upload log_file) refl

apply_schedule_download_twice_example :
    let once = bkp_session_insert_apply_schedule_download one_request apply_image in
    bkp_session_insert_apply_schedule_download once apply_image
    ≡ insert_node once
        (codes "apply_schedule_download")
        (insert_all null (apply_schedule_download_keys apply_image))
unfolding bkp_session_node_found node_with_keys keys_left strcmp bkp_session_insert_download
    insert_unless_found
apply_schedule_download_twice_example = apply_schedule_download_twice one_request apply_image refl

load_requests-InOrder_example : InOrder (load_requests none no_requests one_request)
load_requests-InOrder_example = load_requests-InOrder none no_requests one_request (tt, tt, tt, tt)

load_requests-Counted_example : Counted (load_requests none no_requests one_request)
load_requests-Counted_example = load_requests-Counted none no_requests one_request refl

abbrev event_ops : List EventOp
event_ops =
    insert_event m_download (codes "key 1") 1 queue
    ∷ insert_parameter 0 (codes "Device.X")
    ∷ move_to_send
    ∷ insert_event boot [] 2 queue
    ∷ delete_event 1 send
    ∷ []

tree_refines-list_example : run_ops on_tree null event_ops ≡ nodes (run_ops on_list [] event_ops)
tree_refines-list_example = tree_refines-list [] event_ops
