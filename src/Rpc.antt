-- ===== src/Rpc.antt =====
-- RPCs of the ACS that put transfers and informs into the queues (xml.c). A message is a tree of Store.Node; the
-- response is an answer: the element `soap_env:Body` is there in the tree of the response, and memory suffices. The
-- backup tree stands in two parts, the requests here and the events in the state of the sessions.
pub mod Faults
pub mod FaultTable
pub mod Transfer
pub mod Remove
pub mod Inform
pub mod Launch
pub mod Messages
pub mod Ordered
pub mod Steps
pub mod Rounds
pub mod Invariant
use icwmp.Prelude.{ℕ, Bool, Option, none, some, List, [], ◌∷◌, ◌++◌}
use icwmp.Prelude.Decimal.{ℤ}
use icwmp.Prelude.Text.{Text}
use icwmp.Store.Loading.{Queues}
use icwmp.Store.Node.{Node, null, element, text}

pub record State : Type 0 where
  pub queues : Queues
  pub count_schedule_inform_queue : ℤ
  pub bkp_tree : Node
  pub bkp_file : Node

unfoldable pub bkp_session_save : State → State
bkp_session_save s = record s { bkp_file = s.bkp_tree }

-- FAULT_CPE_NO_FAULT is `none` where a fault is optional.
pub data Fault : Type 0 where
  method_not_supported request_denied internal_error invalid_arguments resources_exceeded : Fault
  invalid_parameter_name invalid_parameter_type invalid_parameter_value non_writable_parameter :
      Fault
  notification_rejected download_failure upload_failure file_transfer_authentication_failure : Fault
  unsupported_protocol download_fail_multicast_group download_fail_contact_server : Fault
  download_fail_access_file download_fail_complete_download download_fail_file_corrupted : Fault
  download_fail_file_authentication download_fail_within_time_window duplicate_deployment_unit :
      Fault
  system_resources_exceeded unknown_deployment_unit invalid_deployment_unit_state : Fault
  invalid_downgrade_rejected invalid_update_version_unspecified invalid_update_version_exist : Fault

-- The message that the handler leaves. `failed` is the result -1.
pub data Answer : Type 0 where
  response : Text → Answer
  fault_message : Fault → Answer
  failed : Answer

-- The texts of a message with the name of the element they stand in, in the order of the walk.
unfoldable pub texts : Text → Node → List (Text × Text)
texts parent null = []
texts parent (text v n) = (parent, v) ∷ texts parent n
texts parent (element m c n) = texts m c ++ texts parent n

abbrev pub max_queue : ℕ
max_queue = 10
