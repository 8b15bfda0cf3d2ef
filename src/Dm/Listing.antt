-- ===== src/Dm/Listing.antt =====
-- The list of parameters that the data model reports stays sorted (dm/dmcwmp.c, dm/dmentry.c).
use icwmp.Prelude.{
  ℕ, ◌&&◌, ◌||◌, not, Option, none, some, List, [], ◌∷◌, ◌≡◌, inl, inr, if_elim, arith,
}
use icwmp.Prelude.Text.{Text, less, strcmp, strcmp_flip, str_eq, strstr}
use icwmp.Event.Params.{DmParameter}
use icwmp.Event.Params.Order.{Above, IsSorted, Above-trans, Sign-cases}
use icwmp.Dm.{
  DmCtx, PrefixMethod, add_list_paramameter, is_nil, ends_with_dot, check_param_prefix, fault_9005,
}
use icwmp.Dm.Walk.{Keeps, for_methods-keeps, call-keeps}
use icwmp.Dm.Name.{
  dm_entry_get_name, get_name_obj, get_name_param, get_name_inparam_isobj_check_obj,
  check_obj_is_nl1, get_name_inparam_isobj_check_param, get_name_inparam_isparam_check_obj,
  get_name_inparam_isparam_check_param, get_name_emptyin_nl1_obj, get_name_emptyin_nl1_param,
  entry_method_root,
}
use icwmp.Dm.Value.{
  dm_entry_get_value, get_value_obj, get_value_param, get_value_inparam_isobj_check_obj,
  get_value_inparam_isobj_check_param, get_value_inparam_isparam_check_obj,
  get_value_inparam_isparam_check_param, full_param, or_faultcode,
}

Above-add_list :
    (m : Text) (ps : List DmParameter) (n : Text) (d t : Option Text)
    → strcmp m n ≡ less
    → Above m ps
    → Above m (add_list_paramameter ps n d t)
unfolding add_list_paramameter
Above-add_list m [] n d t h a = (h, tt)
Above-add_list m (p ∷ ps) n d t h a = ground (arith, Above-add_list m ps n d t h a.1)

pub add_list-IsSorted :
    (ps : List DmParameter) (n : Text) (d t : Option Text)
    → IsSorted ps
    → IsSorted (add_list_paramameter ps n d t)
unfolding add_list_paramameter
add_list-IsSorted [] n d t s = (tt, tt)
add_list-IsSorted (p ∷ ps) n d t s = elim (Sign-cases (strcmp p.name n)) [
  | inl e ↦
      rw (e, IsSorted, add_list_paramameter)
        (Above-add_list p.name ps n d t e s.0, add_list-IsSorted ps n d t s.1)
  | inr (inl e) ↦ rw (e, IsSorted, add_list_paramameter) s
  | inr (inr e) ↦
      let below : strcmp n p.name ≡ less = ground (arith, strcmp_flip p.name n) in
      rw (e, IsSorted, add_list_paramameter) ((below, Above-trans n p.name ps below s.0), s)
]

abbrev Listed : {D : Type 0} → DmCtx D → Type 0
Listed c = IsSorted c.list_parameter

abbrev ListedAfter : {D : Type 0} → ℕ × DmCtx D → Type 0
ListedAfter r = Listed r.1

module _ {D : Type 0} where
  value_all-Keeps : Keeps {D = D} get_value_obj get_value_param Listed
  unfolding get_value_obj get_value_param
  value_all-Keeps = record {
    object = λ o c h. h;
    param = λ p c h. add_list-IsSorted c.list_parameter _ _ _ h;
    at_obj = λ name c h. h;
  }

  value_isobj-Keeps :
      Keeps {D = D} get_value_inparam_isobj_check_obj get_value_inparam_isobj_check_param Listed
  unfolding get_value_inparam_isobj_check_obj get_value_inparam_isobj_check_param
  value_isobj-Keeps = record {
    object = λ o c h. if_elim ListedAfter (strstr c.current_obj c.in_param) _ _ (λ _. h) (λ _. h);
    param = λ p c h.
        if_elim ListedAfter (strstr (full_param p c) c.in_param) _ _
          (λ _. add_list-IsSorted c.list_parameter _ _ _ h) (λ _. h);
    at_obj = λ name c h. h;
  }

  value_isparam-Keeps :
      Keeps {D = D} get_value_inparam_isparam_check_obj get_value_inparam_isparam_check_param Listed
  unfolding get_value_inparam_isparam_check_obj get_value_inparam_isparam_check_param
  value_isparam-Keeps = record {
    object = λ o c h. h;
    param = λ p c h.
        if_elim ListedAfter (not (str_eq c.in_param (full_param p c))) _ _ (λ _. h)
          (λ _. add_list-IsSorted c.list_parameter _ _ _ h);
    at_obj = λ name c h. h;
  }

  or_faultcode-ctx : (r : Option ℕ × DmCtx D) → Listed r.1 → Listed (or_faultcode r).1
  or_faultcode-ctx (none, c) h = h
  or_faultcode-ctx (some ret, c) h = h

  -- GetParameterValues, whatever the data model holds, leaves a list of parameters that was sorted
  -- by name, without a name twice, sorted by name, without a name twice.
  pub dm_entry_get_value-IsSorted :
      (ms : List (PrefixMethod D)) (c : DmCtx D)
      → IsSorted c.list_parameter
      → IsSorted (dm_entry_get_value ms c).1.list_parameter
  unfolding dm_entry_get_value
  dm_entry_get_value-IsSorted ms c h =
      let all =
        or_faultcode-ctx _
          (for_methods-keeps _ _ Listed value_all-Keeps ms (record c { faultcode = 0 }) h) in
      let isobj = or_faultcode-ctx _ (
        for_methods-keeps _ _ Listed value_isobj-Keeps ms (record c { faultcode = fault_9005 })
          h) in
      let isparam = or_faultcode-ctx _ (
        for_methods-keeps _ _ Listed value_isparam-Keeps ms (record c { faultcode = fault_9005 })
          h) in
      if_elim ListedAfter (is_nil c.in_param || check_param_prefix ms c.in_param) _ _ (λ _. all)
        (λ _. if_elim ListedAfter (ends_with_dot c.in_param) _ _ (λ _. isobj) (λ _. isparam))

  name_all-Keeps : Keeps {D = D} get_name_obj get_name_param Listed
  unfolding get_name_obj get_name_param
  name_all-Keeps = record {
    object = λ o c h. add_list-IsSorted c.list_parameter _ _ _ h;
    param = λ p c h. add_list-IsSorted c.list_parameter _ _ _ h;
    at_obj = λ name c h. h;
  }

  name_isobj-Keeps :
      Keeps {D = D} get_name_inparam_isobj_check_obj get_name_inparam_isobj_check_param Listed
  unfolding get_name_inparam_isobj_check_obj get_name_inparam_isobj_check_param
  name_isobj-Keeps = record {
    object = λ o c h.
        if_elim ListedAfter (strstr c.current_obj c.in_param) _ _
          (λ _.
            if_elim ListedAfter (not c.nextlevel || check_obj_is_nl1 c.current_obj c.in_param 2) _ _
              (λ _. add_list-IsSorted c.list_parameter _ _ _ h) (λ _. h))
          (λ _. h);
    param = λ p c h.
        if_elim ListedAfter (strstr (full_param p c) c.in_param) _ _
          (λ _.
            if_elim ListedAfter (not c.nextlevel || check_obj_is_nl1 (full_param p c) c.in_param 1)
              _ _ (λ _. add_list-IsSorted c.list_parameter _ _ _ h) (λ _. h))
          (λ _. h);
    at_obj = λ name c h. h;
  }

  name_isparam-Keeps :
      Keeps {D = D} get_name_inparam_isparam_check_obj get_name_inparam_isparam_check_param Listed
  unfolding get_name_inparam_isparam_check_obj get_name_inparam_isparam_check_param
  name_isparam-Keeps = record {
    object = λ o c h. h;
    param = λ p c h.
        if_elim ListedAfter (not (str_eq (full_param p c) c.in_param)) _ _ (λ _. h)
          (λ _.
            if_elim ListedAfter c.nextlevel _ _ (λ _. h)
              (λ _. add_list-IsSorted c.list_parameter _ _ _ h));
    at_obj = λ name c h. h;
  }

  name_nl1-Keeps : Keeps {D = D} get_name_emptyin_nl1_obj get_name_emptyin_nl1_param Listed
  unfolding get_name_emptyin_nl1_obj get_name_emptyin_nl1_param
  name_nl1-Keeps = record {
    object = λ o c h. add_list-IsSorted c.list_parameter _ _ _ h;
    param = λ p c h. h;
    at_obj = λ name c h. h;
  }

  -- GetParameterNames, whatever the data model holds, leaves a list of parameters that was sorted
  -- by name, without a name twice, sorted by name, without a name twice.
  pub dm_entry_get_name-IsSorted :
      (root : Text) (ms : List (PrefixMethod D)) (c : DmCtx D)
      → IsSorted c.list_parameter
      → IsSorted (dm_entry_get_name root ms c).1.list_parameter
  unfolding dm_entry_get_name
  dm_entry_get_name-IsSorted root ms c h =
      let c0 = record c { faultcode = fault_9005 } in
      let nl1 = call-keeps _ _ Listed name_nl1-Keeps (entry_method_root root) c0 h in
      let all =
        or_faultcode-ctx _
          (for_methods-keeps _ _ Listed name_all-Keeps ms (record c { faultcode = 0 }) h) in
      let isobj = or_faultcode-ctx _ (for_methods-keeps _ _ Listed name_isobj-Keeps ms c0 h) in
      let isparam = or_faultcode-ctx _ (for_methods-keeps _ _ Listed name_isparam-Keeps ms c0 h) in
      if_elim ListedAfter (is_nil c.in_param && c.nextlevel) _ _ (λ _. nl1)
        (λ _.
          if_elim ListedAfter (is_nil c.in_param || check_param_prefix ms c.in_param) _ _
            (λ _. if_elim ListedAfter c.nextlevel _ _ (λ _. isobj) (λ _. all))
            (λ _. if_elim ListedAfter (ends_with_dot c.in_param) _ _ (λ _. isobj) (λ _. isparam)))
