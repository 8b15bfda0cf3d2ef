-- ===== src/Dm/Value.antt =====
-- GetParameterValues and SetParameterValues (dm/dmcwmp.c): dm_entry_get_value and dm_entry_set_value with
-- their methods.
use icwmp.Prelude.{
  ℕ, Bool, true, false, ◌||◌, not, Option, none, some, List, [], ◌∷◌, ◌++◌, ◌==◌, if◌then◌else◌,
}
use icwmp.Prelude.Text.{Text, codes, str_eq, strstr}
use icwmp.Dm.{
  dm_update_enabled_notify_byname, DmCtx, DmObject, DmParam, PrefixMethod, value_check, value_set,
  fault_9005, fault_9008, add_list_paramameter, for_methods, check_param_prefix, ends_with_dot,
  is_nil,
}

abbrev or_string : Option Text → Text
or_string none = codes "xsd:string"
or_string (some t) = t

abbrev pub starts_with_one : Text → Bool
starts_with_one [] = false
starts_with_one (a ∷ s) = a == b'1'

module _ {D : Type 0} where
  abbrev pub full_param : DmParam D → DmCtx D → Text
  full_param p c = c.current_obj ++ p.lastname

  -- get_cmd, then add_list_paramameter
  abbrev pub list_value : DmParam D → DmCtx D → DmCtx D
  list_value p c = record c {
    list_parameter =
        add_list_paramameter c.list_parameter (full_param p c)
          (some (p.get_cmd (full_param p c) c.device)) (some (or_string p.type));
  }

  unfoldable pub get_value_obj : DmObject D → DmCtx D → ℕ × DmCtx D
  get_value_obj o c = (0, c)

  unfoldable pub get_value_inparam_isobj_check_obj : DmObject D → DmCtx D → ℕ × DmCtx D
  get_value_inparam_isobj_check_obj o c =
      if strstr c.current_obj c.in_param then (0, record c { faultcode = 0 }) else (fault_9005, c)

  unfoldable pub get_value_inparam_isparam_check_obj : DmObject D → DmCtx D → ℕ × DmCtx D
  get_value_inparam_isparam_check_obj o c = (fault_9005, c)

  unfoldable pub get_value_param : DmParam D → DmCtx D → ℕ × DmCtx D
  get_value_param p c = (0, list_value p c)

  unfoldable pub get_value_inparam_isparam_check_param : DmParam D → DmCtx D → ℕ × DmCtx D
  get_value_inparam_isparam_check_param p c =
      if not (str_eq c.in_param (full_param p c))
      then (fault_9005, c)
      else (0, record (list_value p c) { stop = true })

  unfoldable pub get_value_inparam_isobj_check_param : DmParam D → DmCtx D → ℕ × DmCtx D
  get_value_inparam_isobj_check_param p c =
      if strstr (full_param p c) c.in_param
      then (0, record (list_value p c) { faultcode = 0 })
      else (fault_9005, c)

  -- `return ctx->faultcode` where the loop ran to its end.
  abbrev pub or_faultcode : Option ℕ × DmCtx D → ℕ × DmCtx D
  or_faultcode (none, c) = (c.faultcode, c)
  or_faultcode (some ret, c) = (ret, c)

  unfoldable pub dm_entry_get_value : List (PrefixMethod D) → DmCtx D → ℕ × DmCtx D
  unfolding for_methods check_param_prefix
  dm_entry_get_value ms c =
      if is_nil c.in_param || check_param_prefix ms c.in_param
      then or_faultcode (for_methods get_value_obj get_value_param ms (record c { faultcode = 0 }))
      else if ends_with_dot c.in_param
      then or_faultcode (
          for_methods get_value_inparam_isobj_check_obj get_value_inparam_isobj_check_param ms
            (record c { faultcode = fault_9005 }))
      else or_faultcode (
          for_methods get_value_inparam_isparam_check_obj get_value_inparam_isparam_check_param ms
            (record c { faultcode = fault_9005 }))

  unfoldable pub set_value_check_obj : DmObject D → DmCtx D → ℕ × DmCtx D
  set_value_check_obj o c = (fault_9005, c)

  -- The branch of VALUECHECK.
  unfoldable pub check_value : DmParam D → DmCtx D → ℕ × DmCtx D
  check_value p c = elim p.set_cmd [
    | none ↦ (fault_9008, c)
    | some set_cmd ↦
        let (fault, d) = set_cmd (full_param p c) c.device value_check c.in_value in
        let c1 = record c { device = d } in
        if not (starts_with_one p.permission)
        then (fault_9008, c)
        else if not (fault == 0)
        then (fault, c1)
        else (
          0,
          record c1 {
            set_list_tmp = c.set_list_tmp ++ record { name = c.in_param; value = c.in_value } ∷ [];
          },
        )
  ]

  -- The branch of VALUESET. A NULL set_cmd was refused by the check; here it does nothing.
  unfoldable pub apply_value : DmParam D → DmCtx D → ℕ × DmCtx D
  unfolding dm_update_enabled_notify_byname
  apply_value p c = elim p.set_cmd [
    | none ↦ (0, c)
    | some set_cmd ↦
        let d = (set_cmd (full_param p c) c.device value_set c.in_value).1 in
        let v = p.get_cmd (full_param p c) d in
        (
          0,
          record c {
            device = d;
            list_enabled_notify =
                dm_update_enabled_notify_byname c.list_enabled_notify (full_param p c) v;
          },
        )
  ]

  unfoldable pub set_value_check_param : DmParam D → DmCtx D → ℕ × DmCtx D
  unfolding check_value apply_value
  set_value_check_param p c =
      let c1 = record c { stop = true } in
      if not (str_eq c.in_param (full_param p c))
      then (fault_9005, c)
      else elim c.setaction [ value_check ↦ check_value p c1 | value_set ↦ apply_value p c1 ]

  abbrev pub or_9005 : Option ℕ × DmCtx D → ℕ × DmCtx D
  or_9005 (none, c) = (fault_9005, c)
  or_9005 (some ret, c) = (ret, c)

  unfoldable pub dm_entry_set_value : List (PrefixMethod D) → DmCtx D → ℕ × DmCtx D
  unfolding for_methods
  dm_entry_set_value ms c =
      if is_nil c.in_param || ends_with_dot c.in_param
      then (fault_9005, c)
      else or_9005 (for_methods set_value_check_obj set_value_check_param ms c)
