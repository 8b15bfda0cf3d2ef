-- ===== src/Dm/Name.antt =====
-- GetParameterNames (dm/dmcwmp.c): dm_entry_get_name with its methods.
use icwmp.Prelude.{
  ℕ, zero, suc, ◌-◌, Bool, true, false, ◌&&◌, ◌||◌, not, none, some, List, length, get_or, ◌==◌,
  if◌then◌else◌,
}
use icwmp.Prelude.Text.{Text, codes, str_eq, strstr}
use icwmp.Dm.{
  DmCtx, DmObject, DmParam, PrefixMethod, return_0, dm_object, if_match_root, fault_9003,
  fault_9005, add_list_paramameter, for_methods, call, check_param_prefix, ends_with_dot, is_nil,
}
use icwmp.Dm.Value.{full_param, or_faultcode}

-- Where the loop of check_obj_is_nl1 stops: behind the last dot, or the one before it.
unfoldable pub nl1_from : ℕ → Text → ℕ → ℕ
nl1_from zero refparam ndot = 0
nl1_from (suc i) refparam ndot = elim (get_or refparam i 0 == b'.') [
  | false ↦ nl1_from i refparam ndot
  | true ↦ elim (ndot == 1) [ true ↦ suc i | false ↦ nl1_from i refparam (ndot - 1) ]
]

-- `true` is the result 0.
unfoldable pub check_obj_is_nl1 : Text → Text → ℕ → Bool
unfolding nl1_from
check_obj_is_nl1 refparam inparam ndot = length inparam == nl1_from (length refparam) refparam ndot

module _ {D : Type 0} where
  -- add_list_paramameter with the permission as the data
  abbrev pub list_name : Text → Text → DmCtx D → DmCtx D
  list_name n permission c = record c {
    list_parameter = add_list_paramameter c.list_parameter n (some permission) none;
  }

  unfoldable pub get_name_obj : DmObject D → DmCtx D → ℕ × DmCtx D
  get_name_obj o c = (0, list_name c.current_obj o.permission c)

  unfoldable pub get_name_inparam_isparam_check_obj : DmObject D → DmCtx D → ℕ × DmCtx D
  get_name_inparam_isparam_check_obj o c = (fault_9005, c)

  unfoldable pub get_name_inparam_isobj_check_obj : DmObject D → DmCtx D → ℕ × DmCtx D
  unfolding check_obj_is_nl1
  get_name_inparam_isobj_check_obj o c =
      let c1 = record c { faultcode = 0 } in
      if strstr c.current_obj c.in_param
      then if not c.nextlevel || check_obj_is_nl1 c.current_obj c.in_param 2
        then (0, list_name c.current_obj o.permission c1)
        else (0, c1)
      else (fault_9005, c)

  unfoldable pub get_name_emptyin_nl1_obj : DmObject D → DmCtx D → ℕ × DmCtx D
  get_name_emptyin_nl1_obj o c = (0, list_name c.current_obj o.permission c)

  unfoldable pub get_name_param : DmParam D → DmCtx D → ℕ × DmCtx D
  get_name_param p c = (0, list_name (full_param p c) p.permission c)

  unfoldable pub get_name_inparam_isparam_check_param : DmParam D → DmCtx D → ℕ × DmCtx D
  get_name_inparam_isparam_check_param p c =
      let c1 = record c { stop = true } in
      if not (str_eq (full_param p c) c.in_param)
      then (fault_9005, c)
      else if c.nextlevel
      then (fault_9003, c1)
      else (0, list_name (full_param p c) p.permission c1)

  unfoldable pub get_name_inparam_isobj_check_param : DmParam D → DmCtx D → ℕ × DmCtx D
  unfolding check_obj_is_nl1
  get_name_inparam_isobj_check_param p c =
      let c1 = record c { faultcode = 0 } in
      if strstr (full_param p c) c.in_param
      then if not c.nextlevel || check_obj_is_nl1 (full_param p c) c.in_param 1
        then (0, list_name (full_param p c) p.permission c1)
        else (0, c1)
      else (fault_9005, c)

  unfoldable pub get_name_emptyin_nl1_param : DmParam D → DmCtx D → ℕ × DmCtx D
  get_name_emptyin_nl1_param p c = (0, c)

  -- dm/dmtree/common/root.c, for a root of the given name
  unfoldable pub entry_method_root : Text → PrefixMethod D
  entry_method_root root = record {
    prefix_name = root;
    enable = true;
    forced_inform = true;
    guard = if_match_root root;
    body =
        dm_object root
          (record {
            permission = codes "0";
            notif_permission = true;
            addobj = none;
            delobj = none;
            linker = none;
          })
          return_0;
  }

  -- `root` is DMROOT.
  unfoldable pub dm_entry_get_name : Text → List (PrefixMethod D) → DmCtx D → ℕ × DmCtx D
  unfolding for_methods check_param_prefix entry_method_root
  dm_entry_get_name root ms c =
      let c0 = record c { faultcode = fault_9005 } in
      let isobj =
        or_faultcode
          (for_methods get_name_inparam_isobj_check_obj get_name_inparam_isobj_check_param ms c0) in
      if is_nil c.in_param && c.nextlevel
      then (
        0,
        (call get_name_emptyin_nl1_obj get_name_emptyin_nl1_param (entry_method_root root) c0).1,
      )
      else if is_nil c.in_param || check_param_prefix ms c.in_param
      then if c.nextlevel
        then isobj
        else or_faultcode (for_methods get_name_obj get_name_param ms (record c { faultcode = 0 }))
      else if ends_with_dot c.in_param
      then isobj
      else or_faultcode (
          for_methods get_name_inparam_isparam_check_obj get_name_inparam_isparam_check_param ms c0)
