-- ===== src/Store/Disk.antt =====
-- The file of the backup and the variable `bkp_tree` (backupSession.c). The XML library stands outside the repository:
-- what mxmlSaveFile writes for a tree and what mxmlLoadFile makes of a file are arguments, and so is the file that
-- holds the text CWMP_BACKUP_SESSION. That fopen fails is left out.
use icwmp.Prelude.{Bool, true, false, ◌&&◌, Option, none, some, if◌then◌else◌}
use icwmp.Prelude.Text.{Text, codes, str_eq}
use icwmp.Store.Loading.{Queues}
use icwmp.Store.Node.{Node, null, element, text}
use icwmp.Store.Reload.{BackupLoading, cwmp_load_saved_session}

-- The walk over the whole tree; `parent` is the name of the node that the siblings stand in.
unfoldable pub move_inform : Text → Text → Text → Node → Node
move_inform from into parent null = null
move_inform from into parent (text v n) = text v (move_inform from into parent n)
move_inform from into parent (element m c n) =
    element (if str_eq m from && str_eq parent (codes "cwmp") then into else m)
      (move_inform from into m c) (move_inform from into parent n)

unfoldable pub bkp_session_move_inform_to_inform_send : Node → Node
unfolding move_inform
bkp_session_move_inform_to_inform_send =
    move_inform (codes "queue_event") (codes "send_event") (codes "cwmp")

unfoldable pub bkp_session_move_inform_to_inform_queue : Node → Node
unfolding move_inform
bkp_session_move_inform_to_inform_queue =
    move_inform (codes "send_event") (codes "queue_event") (codes "cwmp")

-- `file` is none where there is no file, and `bkp_tree` is none for NULL.
pub record Disk (F : Type 0) : Type 0 where
  pub file : Option F
  pub bkp_tree : Option Node

module _ {F : Type 0} (save : Node → F) (load : F → Option Node) (blank : F) where
  unfoldable pub bkp_session_save : Disk F → Disk F
  bkp_session_save d = elim d.bkp_tree [ none ↦ d | some t ↦ record d { file = some (save t) } ]

  unfoldable pub bkp_session_create_file : Disk F → Disk F
  bkp_session_create_file d = record { file = some blank; bkp_tree = some null }

  -- From the second test for NULL on: the status is `false` for -1.
  unfoldable pub check_tree : Disk F → Option Node → Bool × Disk F
  unfolding bkp_session_save bkp_session_create_file bkp_session_move_inform_to_inform_queue
  check_tree d none = (false, bkp_session_create_file d)
  check_tree d (some t) = (
    true,
    bkp_session_save (record d { bkp_tree = some (bkp_session_move_inform_to_inform_queue t) }),
  )

  unfoldable pub bkp_session_check_file : Disk F → Bool × Disk F
  unfolding check_tree bkp_session_create_file
  bkp_session_check_file d = elim d.file [
    | none ↦ (false, bkp_session_create_file d)
    | some f ↦ elim d.bkp_tree [ none ↦ check_tree d (load f) | some t ↦ check_tree d (some t) ]
  ]

  -- The second half of cwmp_init_backup_session.
  unfoldable pub load_checked :
      Option Text
      → Queues
      → Option Text
      → BackupLoading
      → Bool × Disk F
      → (Option Text × Queues) × Disk F
  unfolding cwmp_load_saved_session
  load_checked softwareversion s ret kind (false, d) = ((ret, s), d)
  load_checked softwareversion s ret kind (true, d) = elim d.bkp_tree [
    | some t ↦ (cwmp_load_saved_session softwareversion t s ret kind, d)
    | none ↦ ((ret, s), d)
  ]

  unfoldable pub cwmp_init_backup_session :
      Option Text → Disk F → Queues → Option Text → BackupLoading → (Option Text × Queues) × Disk F
  unfolding bkp_session_check_file load_checked
  cwmp_init_backup_session softwareversion d s ret kind =
      load_checked softwareversion s ret kind (bkp_session_check_file d)
