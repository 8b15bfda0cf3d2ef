-- ===== src/Dm/Attributes.antt =====
-- GetParameterAttributes and SetParameterAttributes (dm/dmcwmp.c): dm_entry_get_notification and
-- dm_entry_set_notification with their methods, and the parameters whose changes are reported.
use icwmp.Prelude.{
  ℕ, Bool, true, ◌||◌, not, none, some, List, [], ◌∷◌, ◌++◌, ◌==◌, leb, get_or, if◌then◌else◌,
}
use icwmp.Prelude.Text.{Text, codes, str_eq, strstr}
use icwmp.Dm.{
  DmCtx, DmObject, DmParam, PrefixMethod, value_check, value_set, fault_9005, add_list_paramameter,
  call, for_methods, check_param_prefix, ends_with_dot, is_nil,
}
use icwmp.Dm.Notify.{get_parameter_notification, set_parameter_notification}
use icwmp.Dm.Value.{full_param, or_faultcode, or_9005}

abbrev pub fault_9009 : ℕ
fault_9009 = 9009

-- notifications[i].value
abbrev setting_of : ℕ → Text
setting_of i =
    get_or (codes "0" ∷ codes "1" ∷ codes "2" ∷ codes "3" ∷ codes "4" ∷ codes "5" ∷ codes "6" ∷ [])
      i []

module _ {D : Type 0} where
  -- The forced setting, or that of the lists.
  unfoldable pub notification_of : DmParam D → DmCtx D → Text
  unfolding get_parameter_notification
  notification_of p c = elim p.forced_notify [
    | none ↦ get_parameter_notification c.inst_buf c.notifications (full_param p c)
    | some i ↦ setting_of i
  ]

  abbrev list_notification : DmParam D → DmCtx D → DmCtx D
  list_notification p c = record c {
    list_parameter =
        add_list_paramameter c.list_parameter (full_param p c) (some (notification_of p c)) none;
  }

  unfoldable pub get_notification_obj : DmObject D → DmCtx D → ℕ × DmCtx D
  get_notification_obj o c = (0, c)

  unfoldable pub get_notification_inparam_isparam_check_obj : DmObject D → DmCtx D → ℕ × DmCtx D
  get_notification_inparam_isparam_check_obj o c = (fault_9005, c)

  unfoldable pub get_notification_inparam_isobj_check_obj : DmObject D → DmCtx D → ℕ × DmCtx D
  get_notification_inparam_isobj_check_obj o c =
      if strstr c.current_obj c.in_param then (0, record c { faultcode = 0 }) else (fault_9005, c)

  unfoldable pub get_notification_param : DmParam D → DmCtx D → ℕ × DmCtx D
  unfolding notification_of
  get_notification_param p c = (0, list_notification p c)

  unfoldable pub get_notification_inparam_isparam_check_param : DmParam D → DmCtx D → ℕ × DmCtx D
  unfolding notification_of
  get_notification_inparam_isparam_check_param p c =
      if not (str_eq (full_param p c) c.in_param)
      then (fault_9005, c)
      else (0, record (list_notification p c) { stop = true })

  unfoldable pub get_notification_inparam_isobj_check_param : DmParam D → DmCtx D → ℕ × DmCtx D
  unfolding notification_of
  get_notification_inparam_isobj_check_param p c =
      if strstr (full_param p c) c.in_param
      then (0, record (list_notification p c) { faultcode = 0 })
      else (fault_9005, c)

  unfoldable pub dm_entry_get_notification : List (PrefixMethod D) → DmCtx D → ℕ × DmCtx D
  unfolding for_methods check_param_prefix
  dm_entry_get_notification ms c =
      if is_nil c.in_param || check_param_prefix ms c.in_param
      then or_faultcode
          (for_methods get_notification_obj get_notification_param ms (record c { faultcode = 0 }))
      else if ends_with_dot c.in_param
      then or_faultcode (
          for_methods get_notification_inparam_isobj_check_obj
            get_notification_inparam_isobj_check_param ms (record c { faultcode = fault_9005 }))
      else or_faultcode (
          for_methods get_notification_inparam_isparam_check_obj
            get_notification_inparam_isparam_check_param ms (record c { faultcode = fault_9005 }))

  -- The branches of VALUECHECK and VALUESET, which the two methods share.
  unfoldable pub set_notification : Bool → DmCtx D → ℕ × DmCtx D
  unfolding set_parameter_notification
  set_notification notif_permission c = elim c.setaction [
    | value_check ↦ if not notif_permission then (fault_9009, c) else (
      0,
      record c {
        set_list_tmp =
            c.set_list_tmp ++ record { name = c.in_param; value = c.in_notification } ∷ [];
      },
    )
    | value_set ↦ (
      0,
      record c {
        notifications =
            (set_parameter_notification c.inst_buf c.notifications c.in_param c.in_notification).1;
        end_session_reload = true;
      },
    )
  ]

  unfoldable pub set_notification_check_obj : DmObject D → DmCtx D → ℕ × DmCtx D
  unfolding set_notification
  set_notification_check_obj o c =
      if not (str_eq c.in_param c.current_obj)
      then (fault_9005, c)
      else set_notification o.notif_permission (record c { stop = true })

  unfoldable pub set_notification_check_param : DmParam D → DmCtx D → ℕ × DmCtx D
  unfolding set_notification
  set_notification_check_param p c =
      if not (str_eq c.in_param (full_param p c))
      then (fault_9005, c)
      else set_notification p.notif_permission (record c { stop = true })

  unfoldable pub dm_entry_set_notification : List (PrefixMethod D) → DmCtx D → ℕ × DmCtx D
  unfolding for_methods
  dm_entry_set_notification ms c =
      if is_nil c.in_param
      then (fault_9009, c)
      else or_9005 (for_methods set_notification_check_obj set_notification_check_param ms c)

  unfoldable pub add_list_enabled_notify : DmCtx D → Text → Text → Text → DmCtx D
  add_list_enabled_notify c param notification value = record c {
    list_enabled_notify =
        c.list_enabled_notify
        ++ record { name = param; notification = notification; value = value } ∷ [];
  }

  unfoldable pub add_list_enabled_lwnotify : DmCtx D → Text → Text → Text → DmCtx D
  add_list_enabled_lwnotify c param notification value = record c {
    list_enabled_lw_notify =
        c.list_enabled_lw_notify
        ++ record { name = param; notification = notification; value = value } ∷ [];
  }

  unfoldable pub enabled_notify_check_obj : DmObject D → DmCtx D → ℕ × DmCtx D
  enabled_notify_check_obj o c = (fault_9005, c)

  unfoldable pub enabled_notify_check_param : DmParam D → DmCtx D → ℕ × DmCtx D
  unfolding notification_of add_list_enabled_notify add_list_enabled_lwnotify
  enabled_notify_check_param p c =
      let notification = notification_of p c in
      let kind = get_or notification 0 0 in
      let value = p.get_cmd (full_param p c) c.device in
      let c1 =
        if kind == b'1' || (kind == b'2' || (kind == b'4' || kind == b'6'))
        then add_list_enabled_notify c (full_param p c) notification value
        else c in
      if kind == b'0' then (0, c) else (
        0,
        if leb b'3' kind
            then add_list_enabled_lwnotify c1 (full_param p c) notification value
            else c1,
      )

  -- The loops that call every method that is wanted, whatever the context says.
  unfoldable pub call_all :
      (PrefixMethod D → Bool)
      → (DmObject D → DmCtx D → ℕ × DmCtx D)
      → (DmParam D → DmCtx D → ℕ × DmCtx D)
      → List (PrefixMethod D)
      → DmCtx D
      → DmCtx D
  call_all wanted obj par [] c = c
  call_all wanted obj par (m ∷ ms) c =
      call_all wanted obj par ms (if wanted m then (call obj par m c).1 else c)

  unfoldable pub dm_entry_enabled_notify : List (PrefixMethod D) → DmCtx D → DmCtx D
  unfolding call_all
  dm_entry_enabled_notify ms c =
      call_all (λ m. m.enable) enabled_notify_check_obj enabled_notify_check_param ms c
