-- ===== src/Dm/Partial.antt =====
-- GetParameterValues of a partial path (dm/dmcwmp.c): what is listed.
use icwmp.Prelude.{
  ℕ, true, false, ◌||◌, Option, none, some, List, [], ◌∷◌, ◌≡◌, refl, sym, subst, ap, inl, inr, ◌∙◌,
  if◌then◌else◌, if_elim, All,
}
use icwmp.Prelude.Text.{Text, strcmp, strstr}
use icwmp.Event.Params.{DmParameter}
use icwmp.Event.Params.Order.{Sign-cases}
use icwmp.Dm.{
  DmCtx, PrefixMethod, add_list_paramameter, is_nil, ends_with_dot, check_param_prefix, fault_9005,
}
use icwmp.Dm.Walk.{Keeps, for_methods-keeps}
use icwmp.Dm.Value.{
  dm_entry_get_value, get_value_inparam_isobj_check_obj, get_value_inparam_isobj_check_param,
  full_param, or_faultcode,
}

-- A property of names that the new name has is one of every name of the list.
add_list-All :
    (P : Text → Type 0) (ps : List DmParameter) (n : Text) (d t : Option Text)
    → P n
    → All (λ p. P p.name) ps
    → All (λ p. P p.name) (add_list_paramameter ps n d t)
unfolding add_list_paramameter
add_list-All P [] n d t h a = (h, tt)
add_list-All P (p ∷ ps) n d t h a = elim (Sign-cases (strcmp p.name n)) [
  | inl e ↦ rw (e, add_list_paramameter) (a.0, add_list-All P ps n d t h a.1)
  | inr (inl e) ↦ rw (e, add_list_paramameter) a
  | inr (inr e) ↦ rw (e, add_list_paramameter) (h, a)
]

module _ {D : Type 0} (path : Text) where
  abbrev pub Within : DmCtx D → Type 0
  Within c = (c.in_param ≡ path) × All (λ p. strstr p.name path ≡ true) c.list_parameter

  abbrev WithinAfter : ℕ × DmCtx D → Type 0
  WithinAfter r = Within r.1

  isobj-Keeps :
      Keeps {D = D} get_value_inparam_isobj_check_obj get_value_inparam_isobj_check_param Within
  unfolding get_value_inparam_isobj_check_obj get_value_inparam_isobj_check_param
  isobj-Keeps = record {
    object = λ o c h. if_elim WithinAfter (strstr c.current_obj c.in_param) _ _ (λ _. h) (λ _. h);
    param = λ p c h.
        if_elim WithinAfter (strstr (full_param p c) c.in_param) _ _
          (λ e.
            let found : strstr (full_param p c) path ≡ true =
              ap (strstr (full_param p c)) (sym h.0) ∙ e in
            (h.0, add_list-All (λ n. strstr n path ≡ true) c.list_parameter _ _ _ found h.1))
          (λ _. h);
    at_obj = λ name c h. h;
  }

  or_faultcode-Within : (r : Option ℕ × DmCtx D) → Within r.1 → Within (or_faultcode r).1
  or_faultcode-Within (none, c) h = h
  or_faultcode-Within (some ret, c) h = h

-- GetParameterValues for a name that ends in a dot and is no prefix of the table, from an empty
-- list, lists only names that contain it, at any place: it looks for the path with strstr.
pub dm_entry_get_value_partial :
    {D : Type 0} (ms : List (PrefixMethod D)) (c : DmCtx D)
    → (is_nil c.in_param || check_param_prefix ms c.in_param) ≡ false
    → ends_with_dot c.in_param ≡ true
    → c.list_parameter ≡ []
    → All (λ p. strstr p.name c.in_param ≡ true) (dm_entry_get_value ms c).1.list_parameter
unfolding dm_entry_get_value
dm_entry_get_value_partial ms c e e' empty =
    let start : Within c.in_param (record c { faultcode = fault_9005 }) =
      (refl, subst (All (λ p. strstr p.name c.in_param ≡ true)) (sym empty) tt) in
    let kept =
      or_faultcode-Within c.in_param _
        (for_methods-keeps _ _ (Within c.in_param) (isobj-Keeps c.in_param) ms _ start) in
    rw (e, e', if◌then◌else◌) kept.1
