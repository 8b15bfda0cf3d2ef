-- ===== src/Tests/DmTests.antt =====
-- A small data model, asked for a parameter and told to set it (dm/dmcwmp.c, dm/dmentry.c).
use icwmp.Prelude.{none, All, ◌≢◌, ℕ, ◌≡◌, ◌⊎◌, refl, true, false, some, [], ◌∷◌}
use icwmp.Prelude.Text.{Text, codes, strcmp, is_prefix, strstr}
use icwmp.Event.Params.{DmParameter}
use icwmp.Event.Params.Order.{IsSorted}
use icwmp.Dm.{
  ends_with_dot, DmCtx, DmParam, PrefixMethod, return_0, dm_object, dm_param, if_match, value_check,
  value_set, fault_9005, check_param_prefix, SetAction, run, for_methods, matches,
  add_list_paramameter,
}
use icwmp.Dm.Value.{
  get_value_inparam_isobj_check_obj, get_value_inparam_isobj_check_param, dm_entry_set_value,
  set_value_check_obj, set_value_check_param, apply_value, dm_entry_get_value,
  get_value_inparam_isparam_check_obj, get_value_inparam_isparam_check_param,
}
use icwmp.Dm.Notify.{no_notifications}
use icwmp.Dm.Name.{dm_entry_get_name}
use icwmp.Dm.Entry.{dm_entry_apply, apply_values, Uci, cmd_set_value, dm_entry_param_method}
use icwmp.Dm.Single.{dm_entry_get_value_one}
use icwmp.Dm.Commit.{Noted, dm_entry_param_method_set}
use icwmp.Dm.Partial.{dm_entry_get_value_partial}
use icwmp.Dm.Apply.{dm_entry_apply_lem}
use icwmp.Dm.Listing.{dm_entry_get_value-IsSorted, dm_entry_get_name-IsSorted}

-- The device is the text of its one parameter.
abbrev set_enable : Text → Text → SetAction → Text → ℕ × Text
set_enable p d value_check v = (0, d)
set_enable p d value_set v = (0, v)

abbrev enable : DmParam Text
enable = record {
  lastname = codes "Enable";
  permission = codes "1";
  get_cmd = λ p d. d;
  set_cmd = some set_enable;
  type = some (codes "xsd:boolean");
  forced_inform = false;
  notif_permission = true;
  forced_notify = none;
  linker = none;
}

abbrev upnp : PrefixMethod Text
upnp = record {
  prefix_name = codes "D.UPnP.";
  enable = true;
  forced_inform = false;
  guard = if_match (codes "D.UPnP.");
  body =
      dm_object (codes "D.UPnP.")
        (record {
          permission = codes "0";
          notif_permission = true;
          addobj = none;
          delobj = none;
          linker = none;
        })
        (dm_param enable return_0);
}

abbrev asked : Text → DmCtx Text
asked p = record {
  stop = false;
  tree = false;
  nextlevel = false;
  faultcode = 0;
  setaction = value_check;
  in_param = p;
  in_value = [];
  current_obj = [];
  list_parameter = [];
  set_list_tmp = [];
  list_fault_param = [];
  in_notification = [];
  addobj_instance = none;
  linker = none;
  linker_param = none;
  alias_register = 0;
  nbrof_instance = 0;
  inst_buf = [];
  list_enabled_notify = [];
  list_enabled_lw_notify = [];
  notifications = no_notifications;
  end_session_reload = false;
  device = codes "1";
}

abbrev uci : Uci Text
uci = record { commit = λ d. d; revert = λ d. d; set_parameter_key = λ k d. d }

reads_enable :
    (dm_entry_get_value (upnp ∷ []) (asked (codes "D.UPnP.Enable"))).1.list_parameter
    ≡ record {
      name = codes "D.UPnP.Enable";
      data_ = some (codes "1");
      type = some (codes "xsd:boolean");
    }
      ∷ []
unfolding dm_entry_get_value for_methods run matches check_param_prefix
    get_value_inparam_isparam_check_obj get_value_inparam_isparam_check_param add_list_paramameter
    strcmp strstr is_prefix
reads_enable = refl

no_prefix : check_param_prefix (upnp ∷ []) (codes "D.UPnP.Enable") ≡ false
unfolding check_param_prefix strcmp
no_prefix = refl

dm_entry_get_value_one_example :
    let r = dm_entry_get_value (upnp ∷ []) (asked (codes "D.UPnP.Enable")) in
    ((r.0 ≡ fault_9005) × (r.1.list_parameter ≡ []))
    ⊎ ((r.0 ≡ 0)
        × ((p : DmParameter) × (r.1.list_parameter ≡ p ∷ []) × (p.name ≡ codes "D.UPnP.Enable")))
dm_entry_get_value_one_example =
    dm_entry_get_value_one (upnp ∷ []) (asked (codes "D.UPnP.Enable")) no_prefix refl refl refl

dm_entry_param_method_set_example : Noted (codes "D.UPnP.Enable") (codes "0") [] [] (
    dm_entry_param_method uci
      (codes "D.")
      (upnp ∷ [])
      (asked [])
      cmd_set_value
      (some (codes "D.UPnP.Enable"))
      (some (codes "0"))
      none)
dm_entry_param_method_set_example =
    dm_entry_param_method_set uci (codes "D.") (upnp ∷ []) (asked []) (some (codes "D.UPnP.Enable"))
      (some (codes "0")) none

dm_entry_get_value-IsSorted_example :
    IsSorted (dm_entry_get_value (upnp ∷ []) (asked (codes "D."))).1.list_parameter
dm_entry_get_value-IsSorted_example =
    dm_entry_get_value-IsSorted (upnp ∷ []) (asked (codes "D.")) tt

dm_entry_get_name-IsSorted_example :
    IsSorted (dm_entry_get_name (codes "D.") (upnp ∷ []) (asked (codes "D."))).1.list_parameter
dm_entry_get_name-IsSorted_example =
    dm_entry_get_name-IsSorted (codes "D.") (upnp ∷ []) (asked (codes "D.")) tt

path_ends : ends_with_dot (codes "UPnP.") ≡ true
path_ends = refl

path_no_prefix : check_param_prefix (upnp ∷ []) (codes "UPnP.") ≡ false
unfolding check_param_prefix strcmp
path_no_prefix = refl

dm_entry_get_value_partial_example :
    All
      (λ p. strstr p.name (codes "UPnP.") ≡ true)
      (dm_entry_get_value (upnp ∷ []) (asked (codes "UPnP."))).1.list_parameter
dm_entry_get_value_partial_example =
    dm_entry_get_value_partial (upnp ∷ []) (asked (codes "UPnP.")) path_no_prefix path_ends refl

-- A path that no name starts with is answered all the same.
middle_of_a_name : (dm_entry_get_value (upnp ∷ []) (asked (codes "UPnP."))).0 ≡ 0
unfolding dm_entry_get_value for_methods run matches check_param_prefix
    get_value_inparam_isobj_check_obj get_value_inparam_isobj_check_param add_list_paramameter
    strcmp strstr is_prefix
middle_of_a_name = refl

-- The context in which a value waits.
abbrev accepted : DmCtx Text
accepted = record (asked []) {
  set_list_tmp = record { name = codes "D.UPnP.Enable"; value = codes "0" } ∷ [];
}

dm_entry_apply_lem_example :
    let (fault, d) = dm_entry_apply uci (upnp ∷ []) accepted none in
    (d.set_list_tmp ≡ [])
    × (((fault ≡ 0) × (d.list_fault_param ≡ []))
        ⊎ ((fault ≢ 0)
            × ((name : Text) × (d.list_fault_param ≡ record { name = name; fault = fault } ∷ []))))
dm_entry_apply_lem_example = dm_entry_apply_lem uci (upnp ∷ []) accepted none

sets_enable : (dm_entry_apply uci (upnp ∷ []) accepted none).1.device ≡ codes "0"
unfolding dm_entry_apply apply_values dm_entry_set_value for_methods run matches set_value_check_obj
    set_value_check_param apply_value strcmp strstr is_prefix
sets_enable = refl
