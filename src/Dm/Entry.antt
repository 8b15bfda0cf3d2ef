-- ===== src/Dm/Entry.antt =====
-- The entry of the data model (dm/dmentry.c): dm_entry_param_method, and dm_entry_apply for both of its commands. The
-- calls into libuci are parameters, but for the lists of notifications.
use icwmp.Prelude.{
  ℕ, Bool, true, false, ◌||◌, ◌&&◌, Option, none, some, List, [], ◌∷◌, ◌++◌, ◌==◌, if◌then◌else◌,
}
use icwmp.Prelude.Text.{or_empty, Text, codes, str_eq, str_ieq}
use icwmp.Dm.{DmCtx, PrefixMethod, value_check, value_set, SetTmp, fault_9003, fault_9005, is_nil}
use icwmp.Dm.Value.{dm_entry_get_value, dm_entry_set_value}
use icwmp.Dm.Name.{dm_entry_get_name}
use icwmp.Dm.Attributes.{
  dm_entry_get_notification, dm_entry_set_notification, dm_entry_enabled_notify,
}
use icwmp.Dm.Objects.{
  dm_entry_add_object, dm_entry_delete_object, dm_entry_inform, dm_entry_get_linker,
  dm_entry_get_linker_value, dmentry_instance_lookup_inparam,
}

-- dmuci_commit, dmuci_revert, and dmuci_set_value of the ParameterKey followed by dmuci_change_packages.
pub record Uci (D : Type 0) : Type 0 where
  pub commit : D → D
  pub revert : D → D
  pub set_parameter_key : Text → D → D

-- The value that is stored, and whether the result is 0.
unfoldable pub string_to_bool : Text → Bool × Bool
string_to_bool v =
    if str_eq v (codes "1")
    then (true, true)
    else if str_eq v (codes "0")
    then (false, true)
    else if str_ieq v (codes "true")
    then (true, true)
    else if str_ieq v (codes "false")
    then (false, true)
    else (false, false)

pub data Cmd : Type 0 where
  cmd_get_value cmd_get_name cmd_get_notification cmd_set_value cmd_set_notification : Cmd
  cmd_inform cmd_add_object cmd_del_object : Cmd

-- What a setting of a notification may be.
abbrev is_setting : Text → Bool
is_setting a =
    str_eq a (codes "0")
    || (str_eq a (codes "1")
        || (str_eq a (codes "2")
            || (str_eq a (codes "3")
                || (str_eq a (codes "4") || (str_eq a (codes "5") || str_eq a (codes "6"))))))

module _ {D : Type 0} where
  unfoldable pub add_list_fault_param : DmCtx D → Text → ℕ → DmCtx D
  add_list_fault_param c param fault = record c {
    list_fault_param = c.list_fault_param ++ record { name = param; fault = fault } ∷ [];
  }

  -- After an object was added or deleted.
  abbrev with_key : Uci D → Option Text → ℕ × DmCtx D → ℕ × DmCtx D
  with_key u arg1 (fault, c) =
      if fault == 0
      then (0, record c { device = u.set_parameter_key (or_empty arg1) c.device })
      else (fault, c)

  -- The switch over the command.
  unfoldable pub run_cmd :
      Uci D → Text → List (PrefixMethod D) → DmCtx D → Cmd → Option Text → Option Text → ℕ × DmCtx D
  unfolding dm_entry_get_value dm_entry_get_name dm_entry_set_value string_to_bool
      add_list_fault_param dm_entry_get_notification dm_entry_set_notification dm_entry_inform
      dm_entry_add_object dm_entry_delete_object
  run_cmd u root ms c cmd_get_value arg1 arg2 =
      if str_eq c.in_param (codes ".") then (fault_9005, c) else dm_entry_get_value ms c
  run_cmd u root ms c cmd_get_name none arg2 =
      (if str_eq c.in_param (codes ".") then fault_9005 else fault_9003, c)
  run_cmd u root ms c cmd_get_name (some a) arg2 =
      let (b, ok) = string_to_bool a in
      let c1 = record c { nextlevel = b } in
      if str_eq c.in_param (codes ".")
      then (fault_9005, c)
      else if ok
      then dm_entry_get_name root ms c1
      else (fault_9003, c1)
  run_cmd u root ms c cmd_set_value arg1 arg2 =
      let (fault, c1) =
        dm_entry_set_value ms (record c { in_value = or_empty arg1; setaction = value_check }) in
      if fault == 0 then (0, c1) else (fault, add_list_fault_param c1 c1.in_param fault)
  run_cmd u root ms c cmd_get_notification arg1 arg2 =
      if str_eq c.in_param (codes ".") then (fault_9005, c) else dm_entry_get_notification ms c
  run_cmd u root ms c cmd_set_notification none arg2 = (fault_9003, c)
  run_cmd u root ms c cmd_set_notification (some a) arg2 =
      let setnotif : Bool = elim arg2 [ none ↦ true | some b ↦ (string_to_bool b).0 ] in
      if setnotif && is_setting a
      then dm_entry_set_notification ms (record c { in_notification = a; setaction = value_check })
      else (fault_9003, c)
  run_cmd u root ms c cmd_inform arg1 arg2 = (0, dm_entry_inform ms c)
  run_cmd u root ms c cmd_add_object arg1 arg2 = with_key u arg1 (dm_entry_add_object ms c)
  run_cmd u root ms c cmd_del_object arg1 arg2 = with_key u arg1 (dm_entry_delete_object ms c)

  -- `root` is DMROOT, `inparam` a pointer that may be NULL.
  unfoldable pub dm_entry_param_method :
      Uci D
      → Text
      → List (PrefixMethod D)
      → DmCtx D
      → Cmd
      → Option Text
      → Option Text
      → Option Text
      → ℕ × DmCtx D
  unfolding run_cmd dmentry_instance_lookup_inparam
  dm_entry_param_method u root ms c cmd inparam arg1 arg2 =
      let p = or_empty inparam in
      let c0 = record (dmentry_instance_lookup_inparam (record c { in_param = p })) {
        tree = is_nil p || str_eq p root;
        stop = false;
      } in
      let (fault, c1) = run_cmd u root ms c0 cmd arg1 arg2 in
      (fault, record c1 { device = u.commit c1.device })

  -- The loop of dm_entry_apply; it stops at the first fault.
  unfoldable pub apply_values : List (PrefixMethod D) → List SetTmp → DmCtx D → ℕ × DmCtx D
  unfolding dm_entry_set_value
  apply_values ms [] c = (0, c)
  apply_values ms (n ∷ ns) c =
      let (fault, c1) =
        dm_entry_set_value ms (record c { in_param = n.name; in_value = n.value; stop = false }) in
      let later = apply_values ms ns c1 in if fault == 0 then later else (fault, c1)

  -- dm_entry_apply for CMD_SET_VALUE
  unfoldable pub dm_entry_apply :
      Uci D → List (PrefixMethod D) → DmCtx D → Option Text → ℕ × DmCtx D
  unfolding apply_values add_list_fault_param
  dm_entry_apply u ms c arg1 =
      let (fault, c1) =
        apply_values ms c.set_list_tmp (record c { setaction = value_set; tree = false }) in
      let c2 =
        if fault == 0
        then record c1 { device = u.commit (u.set_parameter_key (or_empty arg1) c1.device) }
        else add_list_fault_param (record c1 { device = u.revert c1.device }) c1.in_param fault in
      (fault, record c2 { set_list_tmp = [] })

  unfoldable pub apply_notifications : List (PrefixMethod D) → List SetTmp → DmCtx D → ℕ × DmCtx D
  unfolding dm_entry_set_notification
  apply_notifications ms [] c = (0, c)
  apply_notifications ms (n ∷ ns) c =
      let (fault, c1) =
        dm_entry_set_notification ms
          (record c { in_param = n.name; in_notification = n.value; stop = false }) in
      let later = apply_notifications ms ns c1 in if fault == 0 then later else (fault, c1)

  -- dm_entry_apply for CMD_SET_NOTIFICATION. The lists were committed by the call before, so to revert gives
  -- those of that time.
  unfoldable pub dm_entry_apply_notification : Uci D → List (PrefixMethod D) → DmCtx D → ℕ × DmCtx D
  unfolding apply_notifications
  dm_entry_apply_notification u ms c =
      let (fault, c1) =
        apply_notifications ms c.set_list_tmp (record c { setaction = value_set; tree = false }) in
      let c2 =
        if fault == 0
        then record c1 { device = u.commit c1.device }
        else record c1 { device = u.revert c1.device; notifications = c.notifications } in
      (fault, record c2 { set_list_tmp = [] })

  -- From the context that dm_ctx_init gives, with both lists of changes empty.
  unfoldable pub dm_entry_load_enabled_notify : List (PrefixMethod D) → DmCtx D → DmCtx D
  unfolding dm_entry_enabled_notify
  dm_entry_load_enabled_notify ms c = dm_entry_enabled_notify ms (record c {
    in_param = [];
    tree = true;
    list_enabled_notify = [];
    list_enabled_lw_notify = [];
  })

  unfoldable pub adm_entry_get_linker_param :
      List (PrefixMethod D) → DmCtx D → Option Text → Option Text → Option Text
  unfolding dm_entry_get_linker
  adm_entry_get_linker_param ms c param linker' =
      (dm_entry_get_linker ms (record c {
        in_param = or_empty param;
        linker = linker';
        linker_param = none;
        tree = is_nil (or_empty param);
      })).1.linker_param

  unfoldable pub adm_entry_get_linker_value :
      List (PrefixMethod D) → DmCtx D → Option Text → Option Text
  unfolding dm_entry_get_linker_value
  adm_entry_get_linker_value ms c none = none
  adm_entry_get_linker_value ms c (some []) = none
  adm_entry_get_linker_value ms c (some (a ∷ param)) =
      (dm_entry_get_linker_value ms
        (record c { in_param = a ∷ param; tree = false; linker = none })).1.linker
