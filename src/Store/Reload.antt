-- ===== src/Store/Reload.antt =====
-- The backup file as a whole (backupSession.c): values outside the requests, the loading after a reboot, and the file
-- itself. The root of the tree is its element `cwmp`, which the nodes here are the children of.
use icwmp.Prelude.{Bool, false, ◌||◌, Option, none, some, if◌then◌else◌}
use icwmp.Prelude.Text.{Text, codes, str_eq}
use icwmp.Store.LoadEvent.{load_queue_event}
use icwmp.Store.Loading.{
  Queues, load_schedule_inform, load_download, load_schedule_download, load_apply_schedule_download,
  load_change_du_state, load_upload, load_du_state_change_complete, load_transfer_complete,
}
use icwmp.Store.Node.{Node, null, element, text, bkp_session_insert, insert_node}

-- mxmlWalkNext with MXML_DESCEND behind a node without children: `up` is what follows its parent.
abbrev pub follow : Node → Node → Node
follow null up = up
follow n up = n

-- mxmlFindElement with MXML_DESCEND: the node that the walk comes to behind the tag that is found.
unfoldable pub find_then_next : Text → Node → Node → Option Node
find_then_next m null up = none
find_then_next m (text v n) up = find_then_next m n up
find_then_next m (element x c n) up =
    let inside = find_then_next m c (follow n up) in
    let behind = find_then_next m n up in
    if str_eq x m
    then some (follow c (follow n up))
    else elim inside [ some r ↦ some r | none ↦ behind ]

unfoldable pub load_child_value : Node → Text → Option Text
unfolding find_then_next
load_child_value children name = elim (find_then_next name children null) [
  | some (text v n) ↦ some v
  | _ ↦ none
]

-- Whether mxmlFindElement finds a tag.
unfoldable pub has_element : Text → Node → Bool
has_element m null = false
has_element m (text v n) = has_element m n
has_element m (element x c n) =
    let inside = has_element m c in let behind = has_element m n in str_eq x m || (inside || behind)

-- mxmlDelete of the node that mxmlFindElement finds, where there is one.
unfoldable pub delete_element : Text → Node → Node
unfolding has_element
delete_element m null = null
delete_element m (text v n) = text v (delete_element m n)
delete_element m (element x c n) =
    let inside = delete_element m c in
    let behind = delete_element m n in
    if str_eq x m then n else if has_element m c then element x inside n else element x c behind

unfoldable pub bkp_session_simple_insert : Node → Text → Text → Option Text → Node
unfolding delete_element bkp_session_insert
bkp_session_simple_insert tree parent child value =
    insert_node (delete_element parent tree) parent (bkp_session_insert null child value)

-- The children of the node that mxmlFindElement finds are changed.
unfoldable pub on_element : Text → (Node → Node) → Node → Node
unfolding has_element
on_element m f null = null
on_element m f (text v n) = text v (on_element m f n)
on_element m f (element x c n) =
    let inside = on_element m f c in
    let behind = on_element m f n in
    if str_eq x m
    then element x (f c) n
    else if has_element m c
    then element x inside n
    else element x c behind

unfoldable pub bkp_session_simple_insert_in_parent : Node → Text → Text → Option Text → Node
unfolding has_element on_element delete_element bkp_session_insert
bkp_session_simple_insert_in_parent tree parent child value =
    on_element parent (λ c. bkp_session_insert (delete_element child c) child value)
      (if has_element parent tree then tree else insert_node tree parent null)

pub data BackupLoading : Type 0 where
  load_all load_acs load_cr_ip load_cr_ipv6 load_cr_port : BackupLoading

-- The first element of this name, at the top of the tree.
unfoldable pub load_value : Node → Text → Text → Option Text → Option Text
unfolding load_child_value
load_value null m child ret = ret
load_value (text v n) m child ret = load_value n m child ret
load_value (element x c n) m child ret =
    let rest = load_value n m child ret in if str_eq x m then load_child_value c child else rest

-- The device's own software version is an argument.
module _ (softwareversion : Option Text) where
  unfoldable pub load_node : Queues → Text → Node → Queues
  unfolding load_queue_event load_download load_upload load_transfer_complete load_schedule_inform
      load_change_du_state load_du_state_change_complete load_schedule_download
      load_apply_schedule_download
  load_node s m c =
      if str_eq m (codes "queue_event")
      then record s { cwmp = load_queue_event s.cwmp c }
      else if str_eq m (codes "download")
      then load_download s c
      else if str_eq m (codes "upload")
      then load_upload s c
      else if str_eq m (codes "transfer_complete")
      then load_transfer_complete softwareversion s c
      else if str_eq m (codes "schedule_inform")
      then load_schedule_inform s c
      else if str_eq m (codes "change_du_state")
      then load_change_du_state s c
      else if str_eq m (codes "du_state_change_complete")
      then load_du_state_change_complete s c
      else if str_eq m (codes "schedule_download")
      then load_schedule_download s c
      else if str_eq m (codes "apply_schedule_download")
      then load_apply_schedule_download s c
      else s

  unfoldable pub load_requests : Queues → Node → Queues
  unfolding load_node
  load_requests s null = s
  load_requests s (text v n) = load_requests s n
  load_requests s (element m c n) = load_requests (load_node s m c) n

  -- `*ret` and the queues.
  unfoldable pub cwmp_load_saved_session :
      Node → Queues → Option Text → BackupLoading → Option Text × Queues
  unfolding load_requests load_value
  cwmp_load_saved_session tree s ret load_all = (ret, load_requests s tree)
  cwmp_load_saved_session tree s ret load_acs = (load_value tree (codes "acs") (codes "url") ret, s)
  cwmp_load_saved_session tree s ret load_cr_ip =
      (load_value tree (codes "connection_request") (codes "ip") ret, s)
  cwmp_load_saved_session tree s ret load_cr_ipv6 =
      (load_value tree (codes "connection_request") (codes "ipv6") ret, s)
  cwmp_load_saved_session tree s ret load_cr_port =
      (load_value tree (codes "connection_request") (codes "port") ret, s)
