-- ===== src/Store/Requests.antt =====
-- The requests of the ACS that have to survive a reboot (inc/xml.h). A `char *` is an optional text; an array of two
-- is two fields.
use icwmp.Prelude.{Bool, Option, List}
use icwmp.Prelude.Decimal.{ℤ}
use icwmp.Prelude.Text.{Text}

pub record ScheduleInform : Type 0 where
  pub scheduled_time : ℤ
  pub command_key : Option Text

pub record Download : Type 0 where
  pub scheduled_time : ℤ
  pub file_size : ℤ
  pub command_key : Option Text
  pub file_type : Option Text
  pub url : Option Text
  pub username : Option Text
  pub password : Option Text

pub record TimeWindow : Type 0 where
  pub windowstart : ℤ
  pub windowend : ℤ
  pub windowmode : Option Text
  pub usermessage : Option Text
  pub maxretries : ℤ

pub record TimeInterval : Type 0 where
  pub windowstart : ℤ
  pub windowend : ℤ
  pub maxretries : ℤ

pub record ScheduleDownload : Type 0 where
  pub file_size : ℤ
  pub command_key : Option Text
  pub file_type : Option Text
  pub url : Option Text
  pub username : Option Text
  pub password : Option Text
  pub window1 : TimeWindow
  pub window2 : TimeWindow

pub record ApplyScheduleDownload : Type 0 where
  pub start_time : Option Text
  pub command_key : Option Text
  pub file_type : Option Text
  pub interval1 : TimeInterval
  pub interval2 : TimeInterval

pub data DuStateType : Type 0 where
  du_install du_update du_uninstall : DuStateType

pub record Operation : Type 0 where
  pub type : DuStateType
  pub url : Option Text
  pub uuid : Option Text
  pub version : Option Text
  pub username : Option Text
  pub password : Option Text
  pub executionenvref : Option Text

pub record ChangeDuState : Type 0 where
  pub timeout : ℤ
  pub command_key : Option Text
  pub list_operation : List Operation

pub record Upload : Type 0 where
  pub scheduled_time : ℤ
  pub command_key : Option Text
  pub file_type : Option Text
  pub url : Option Text
  pub username : Option Text
  pub password : Option Text
  pub f_instance : Option Text

pub record TransferComplete : Type 0 where
  pub fault_code : ℤ
  pub command_key : Option Text
  pub start_time : Option Text
  pub complete_time : Option Text
  pub old_software_version : Option Text
  pub type : ℤ

pub record OpResult : Type 0 where
  pub uuid : Option Text
  pub du_ref : Option Text
  pub version : Option Text
  pub current_state : Option Text
  pub resolved : Bool
  pub execution_unit_ref : Option Text
  pub start_time : Option Text
  pub complete_time : Option Text
  pub fault : ℤ

pub record DuStateChangeComplete : Type 0 where
  pub command_key : Option Text
  pub timeout : ℤ
  pub list_opresult : List OpResult
