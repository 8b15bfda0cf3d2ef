-- ===== src/Tests/NotifyTests.antt =====
-- The notification settings of a few parameters (dm/dmcwmp.c).
use icwmp.Prelude.{◌≡◌, refl, true, [], ◌∷◌}
use icwmp.Prelude.Text.{Text, codes, strcmp, strstr, is_prefix}
use icwmp.Dm.{Notifications}
use icwmp.Dm.Notify.{
  no_notifications, strtok, append_parts, update_param_instance_alias, scan_list, scan_rows,
  has_path, any_path, get_parameter_notification, set_parameter_notification,
  remove_parameter_notification, add_notification,
}
use icwmp.Dm.Notify.Setting.{get_parameter_notification-set}
use icwmp.Dm.Notify.Others.{set_parameter_notification_others}

-- All of WiFi is passive.
abbrev wifi : Notifications
wifi = record no_notifications { passive = codes "D.WiFi." ∷ [] }

abbrev channel : Text
channel = codes "D.WiFi.1.Channel"

abbrev ssid : Text
ssid = codes "D.WiFi.1.SSID"

alias_test :
    update_param_instance_alias (codes "3" ∷ []) (codes "D.WiFi.[cpe-a].Channel")
    ≡ codes "D.WiFi.3.Channel"
unfolding update_param_instance_alias strtok append_parts
alias_test = refl

wifi_test : get_parameter_notification [] wifi channel ≡ codes "1"
unfolding get_parameter_notification scan_rows scan_list update_param_instance_alias strtok
    append_parts strcmp strstr is_prefix
wifi_test = refl

disabled_test :
    get_parameter_notification [] (set_parameter_notification [] wifi channel (codes "0")).1 channel
    ≡ codes "0"
unfolding get_parameter_notification scan_rows scan_list update_param_instance_alias strtok
    append_parts strcmp strstr is_prefix set_parameter_notification remove_parameter_notification
    add_notification any_path has_path
disabled_test = refl

accepted : (set_parameter_notification [] wifi channel (codes "2")).0 ≡ true
unfolding get_parameter_notification scan_rows scan_list update_param_instance_alias strtok
    append_parts strcmp strstr is_prefix set_parameter_notification remove_parameter_notification
    add_notification any_path has_path
accepted = refl

get_parameter_notification-set_example :
    get_parameter_notification [] (set_parameter_notification [] wifi channel (codes "2")).1 channel
    ≡ codes "2"
unfolding update_param_instance_alias strtok append_parts
get_parameter_notification-set_example =
    get_parameter_notification-set [] wifi channel (codes "2") refl accepted

set_parameter_notification_others_example :
    get_parameter_notification [] (set_parameter_notification [] wifi channel (codes "2")).1 ssid
    ≡ get_parameter_notification [] wifi ssid
unfolding update_param_instance_alias strtok append_parts strcmp
set_parameter_notification_others_example =
    set_parameter_notification_others [] wifi channel (codes "2") ssid refl refl
