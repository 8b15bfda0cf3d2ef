-- ===== src/Rpc/FaultTable.antt =====
-- The faults by their numbers and by their texts (FAULT_CPE_ARRAY and the searches in it, xml.c).
use icwmp.Prelude.{◌-◌, some, ◌≡◌, refl, get_elem?}
use icwmp.Prelude.Text.{strcmp}
use icwmp.Rpc.{
  Fault, method_not_supported, request_denied, internal_error, invalid_arguments,
  resources_exceeded, invalid_parameter_name, invalid_parameter_type, invalid_parameter_value,
  non_writable_parameter, notification_rejected, download_failure, upload_failure,
  file_transfer_authentication_failure, unsupported_protocol, download_fail_multicast_group,
  download_fail_contact_server, download_fail_access_file, download_fail_complete_download,
  download_fail_file_corrupted, download_fail_file_authentication, download_fail_within_time_window,
  duplicate_deployment_unit, system_resources_exceeded, unknown_deployment_unit,
  invalid_deployment_unit_state, invalid_downgrade_rejected, invalid_update_version_unspecified,
  invalid_update_version_exist,
}
use icwmp.Rpc.Faults.{FaultEntry, fault_cpe_array, fault_index, cwmp_get_fault_code, fault_of_text}

-- What the code of a fault as text is understood as: two entries have the code 9031.
unfoldable pub understood : Fault → Fault
understood invalid_update_version_exist = invalid_update_version_unspecified
understood method_not_supported = method_not_supported
understood request_denied = request_denied
understood internal_error = internal_error
understood invalid_arguments = invalid_arguments
understood resources_exceeded = resources_exceeded
understood invalid_parameter_name = invalid_parameter_name
understood invalid_parameter_type = invalid_parameter_type
understood invalid_parameter_value = invalid_parameter_value
understood non_writable_parameter = non_writable_parameter
understood notification_rejected = notification_rejected
understood download_failure = download_failure
understood upload_failure = upload_failure
understood file_transfer_authentication_failure = file_transfer_authentication_failure
understood unsupported_protocol = unsupported_protocol
understood download_fail_multicast_group = download_fail_multicast_group
understood download_fail_contact_server = download_fail_contact_server
understood download_fail_access_file = download_fail_access_file
understood download_fail_complete_download = download_fail_complete_download
understood download_fail_file_corrupted = download_fail_file_corrupted
understood download_fail_file_authentication = download_fail_file_authentication
understood download_fail_within_time_window = download_fail_within_time_window
understood duplicate_deployment_unit = duplicate_deployment_unit
understood system_resources_exceeded = system_resources_exceeded
understood unknown_deployment_unit = unknown_deployment_unit
understood invalid_deployment_unit_state = invalid_deployment_unit_state
understood invalid_downgrade_rejected = invalid_downgrade_rejected
understood invalid_update_version_unspecified = invalid_update_version_unspecified

-- The entry of the table at the number of the fault.
pub record Known (f : Fault) : Type 0 where
  pub e : FaultEntry
  pub at : get_elem? fault_cpe_array (fault_index f - 1) ≡ some e
  pub own : e.index ≡ f
  pub by_number : cwmp_get_fault_code e.icode ≡ f
  pub by_text : fault_of_text e.code ≡ some (understood f)

-- Every fault has at its number in FAULT_CPE_ARRAY an entry that names it. cwmp_get_fault_code
-- finds the fault by the internal code of that entry, and the search of the scripts' answers by the
-- text of its code, but for `invalid_update_version_exist`, whose text is that of
-- `invalid_update_version_unspecified`.
pub fault-Known : (f : Fault) → Known f
unfolding fault_index cwmp_get_fault_code fault_of_text understood strcmp
fault-Known method_not_supported = record {
  e = _;
  at = refl;
  own = refl;
  by_number = refl;
  by_text = refl;
}
fault-Known request_denied = record {
  e = _;
  at = refl;
  own = refl;
  by_number = refl;
  by_text = refl;
}
fault-Known internal_error = record {
  e = _;
  at = refl;
  own = refl;
  by_number = refl;
  by_text = refl;
}
fault-Known invalid_arguments = record {
  e = _;
  at = refl;
  own = refl;
  by_number = refl;
  by_text = refl;
}
fault-Known resources_exceeded = record {
  e = _;
  at = refl;
  own = refl;
  by_number = refl;
  by_text = refl;
}
fault-Known invalid_parameter_name = record {
  e = _;
  at = refl;
  own = refl;
  by_number = refl;
  by_text = refl;
}
fault-Known invalid_parameter_type = record {
  e = _;
  at = refl;
  own = refl;
  by_number = refl;
  by_text = refl;
}
fault-Known invalid_parameter_value = record {
  e = _;
  at = refl;
  own = refl;
  by_number = refl;
  by_text = refl;
}
fault-Known non_writable_parameter = record {
  e = _;
  at = refl;
  own = refl;
  by_number = refl;
  by_text = refl;
}
fault-Known notification_rejected = record {
  e = _;
  at = refl;
  own = refl;
  by_number = refl;
  by_text = refl;
}
fault-Known download_failure = record {
  e = _;
  at = refl;
  own = refl;
  by_number = refl;
  by_text = refl;
}
fault-Known upload_failure = record {
  e = _;
  at = refl;
  own = refl;
  by_number = refl;
  by_text = refl;
}
fault-Known file_transfer_authentication_failure = record {
  e = _;
  at = refl;
  own = refl;
  by_number = refl;
  by_text = refl;
}
fault-Known unsupported_protocol = record {
  e = _;
  at = refl;
  own = refl;
  by_number = refl;
  by_text = refl;
}
fault-Known download_fail_multicast_group = record {
  e = _;
  at = refl;
  own = refl;
  by_number = refl;
  by_text = refl;
}
fault-Known download_fail_contact_server = record {
  e = _;
  at = refl;
  own = refl;
  by_number = refl;
  by_text = refl;
}
fault-Known download_fail_access_file = record {
  e = _;
  at = refl;
  own = refl;
  by_number = refl;
  by_text = refl;
}
fault-Known download_fail_complete_download = record {
  e = _;
  at = refl;
  own = refl;
  by_number = refl;
  by_text = refl;
}
fault-Known download_fail_file_corrupted = record {
  e = _;
  at = refl;
  own = refl;
  by_number = refl;
  by_text = refl;
}
fault-Known download_fail_file_authentication = record {
  e = _;
  at = refl;
  own = refl;
  by_number = refl;
  by_text = refl;
}
fault-Known download_fail_within_time_window = record {
  e = _;
  at = refl;
  own = refl;
  by_number = refl;
  by_text = refl;
}
fault-Known duplicate_deployment_unit = record {
  e = _;
  at = refl;
  own = refl;
  by_number = refl;
  by_text = refl;
}
fault-Known system_resources_exceeded = record {
  e = _;
  at = refl;
  own = refl;
  by_number = refl;
  by_text = refl;
}
fault-Known unknown_deployment_unit = record {
  e = _;
  at = refl;
  own = refl;
  by_number = refl;
  by_text = refl;
}
fault-Known invalid_deployment_unit_state = record {
  e = _;
  at = refl;
  own = refl;
  by_number = refl;
  by_text = refl;
}
fault-Known invalid_downgrade_rejected = record {
  e = _;
  at = refl;
  own = refl;
  by_number = refl;
  by_text = refl;
}
fault-Known invalid_update_version_unspecified = record {
  e = _;
  at = refl;
  own = refl;
  by_number = refl;
  by_text = refl;
}
fault-Known invalid_update_version_exist = record {
  e = _;
  at = refl;
  own = refl;
  by_number = refl;
  by_text = refl;
}
