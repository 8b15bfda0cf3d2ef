-- ===== src/Rpc/Faults.antt =====
-- The table FAULT_CPE_ARRAY, and the searches in it (xml.c).
use icwmp.Prelude.{ℕ, Option, none, some, List, [], ◌∷◌, if◌then◌else◌, ◌==◌}
use icwmp.Prelude.Text.{Text, codes, str_eq}
use icwmp.Rpc.{
  Fault, method_not_supported, request_denied, internal_error, invalid_arguments,
  resources_exceeded, invalid_parameter_name, invalid_parameter_type, invalid_parameter_value,
  non_writable_parameter, notification_rejected, download_failure, upload_failure,
  file_transfer_authentication_failure, unsupported_protocol, download_fail_multicast_group,
  download_fail_contact_server, download_fail_access_file, download_fail_complete_download,
  download_fail_file_corrupted, download_fail_file_authentication, download_fail_within_time_window,
  duplicate_deployment_unit, system_resources_exceeded, unknown_deployment_unit,
  invalid_deployment_unit_state, invalid_downgrade_rejected, invalid_update_version_unspecified,
  invalid_update_version_exist,
}

pub data FaultType : Type 0 where
  client server : FaultType

pub record FaultEntry : Type 0 where
  pub index : Fault
  pub code : Text
  pub icode : ℕ
  pub type : FaultType

abbrev entry : Fault → Text → ℕ → FaultType → FaultEntry
entry f c i t = record { index = f; code = c; icode = i; type = t }

-- Without the descriptions.
abbrev pub fault_cpe_array : List FaultEntry
fault_cpe_array =
    entry method_not_supported (codes "9000") 9000 server
    ∷ entry request_denied (codes "9001") 9001 server
    ∷ entry internal_error (codes "9002") 9002 server
    ∷ entry invalid_arguments (codes "9003") 9003 client
    ∷ entry resources_exceeded (codes "9004") 9004 server
    ∷ entry invalid_parameter_name (codes "9005") 9005 client
    ∷ entry invalid_parameter_type (codes "9006") 9006 client
    ∷ entry invalid_parameter_value (codes "9007") 9007 client
    ∷ entry non_writable_parameter (codes "9008") 9008 client
    ∷ entry notification_rejected (codes "9009") 9009 server
    ∷ entry download_failure (codes "9010") 9010 server
    ∷ entry upload_failure (codes "9011") 9011 server
    ∷ entry file_transfer_authentication_failure (codes "9012") 9012 server
    ∷ entry unsupported_protocol (codes "9013") 9013 server
    ∷ entry download_fail_multicast_group (codes "9014") 9014 server
    ∷ entry download_fail_contact_server (codes "9015") 9015 server
    ∷ entry download_fail_access_file (codes "9016") 9016 server
    ∷ entry download_fail_complete_download (codes "9017") 9017 server
    ∷ entry download_fail_file_corrupted (codes "9018") 9018 server
    ∷ entry download_fail_file_authentication (codes "9019") 9019 server
    ∷ entry download_fail_within_time_window (codes "9020") 9020 server
    ∷ entry duplicate_deployment_unit (codes "9026") 9026 server
    ∷ entry system_resources_exceeded (codes "9027") 9027 server
    ∷ entry unknown_deployment_unit (codes "9028") 9028 server
    ∷ entry invalid_deployment_unit_state (codes "9029") 9029 server
    ∷ entry invalid_downgrade_rejected (codes "9030") 9030 server
    ∷ entry invalid_update_version_unspecified (codes "9031") 9031 server
    ∷ entry invalid_update_version_exist (codes "9031") 9032 server
    ∷ []

unfoldable pub cwmp_get_fault_code : ℕ → Fault
cwmp_get_fault_code fault_code = find fault_cpe_array
  where
    find : List FaultEntry → Fault
    find [] = internal_error
    find (e ∷ es) = if e.icode == fault_code then e.index else find es

-- The index that a script's answer names by the text of its code, and none without one.
unfoldable pub fault_of_text : Text → Option Fault
fault_of_text fault_code = find fault_cpe_array
  where
    find : List FaultEntry → Option Fault
    find [] = none
    find (e ∷ es) = if str_eq e.code fault_code then some e.index else find es

-- The number of an enumerator.
unfoldable pub fault_index : Fault → ℕ
fault_index method_not_supported = 1
fault_index request_denied = 2
fault_index internal_error = 3
fault_index invalid_arguments = 4
fault_index resources_exceeded = 5
fault_index invalid_parameter_name = 6
fault_index invalid_parameter_type = 7
fault_index invalid_parameter_value = 8
fault_index non_writable_parameter = 9
fault_index notification_rejected = 10
fault_index download_failure = 11
fault_index upload_failure = 12
fault_index file_transfer_authentication_failure = 13
fault_index unsupported_protocol = 14
fault_index download_fail_multicast_group = 15
fault_index download_fail_contact_server = 16
fault_index download_fail_access_file = 17
fault_index download_fail_complete_download = 18
fault_index download_fail_file_corrupted = 19
fault_index download_fail_file_authentication = 20
fault_index download_fail_within_time_window = 21
fault_index duplicate_deployment_unit = 22
fault_index system_resources_exceeded = 23
fault_index unknown_deployment_unit = 24
fault_index invalid_deployment_unit_state = 25
fault_index invalid_downgrade_rejected = 26
fault_index invalid_update_version_unspecified = 27
fault_index invalid_update_version_exist = 28
