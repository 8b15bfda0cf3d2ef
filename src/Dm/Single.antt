-- ===== src/Dm/Single.antt =====
-- GetParameterValues of one parameter by its full name (dm/dmcwmp.c).
use icwmp.Prelude.{
  ℕ, true, false, ◌||◌, not, Option, none, some, List, [], ◌∷◌, ◌≡◌, ◌⊎◌, inl, inr, refl, sym, ap,
  ◌∙◌, if◌then◌else◌, if_elim, arith,
}
use icwmp.Prelude.Text.{or_empty, Text, str_eq, str_eq_sound}
use icwmp.Event.Params.{DmParameter}
use icwmp.Dm.{
  DmCtx, DmParam, PrefixMethod, add_list_paramameter, is_nil, ends_with_dot, check_param_prefix,
  fault_9005,
}
use icwmp.Dm.Walk.{Searches, Searched, Ended, for_methods-searches}
use icwmp.Dm.Value.{
  dm_entry_get_value, get_value_inparam_isparam_check_obj, get_value_inparam_isparam_check_param,
  full_param, list_value, or_faultcode,
}

add_to_empty :
    (ps : List DmParameter) (n : Text) (d t : Option Text)
    → ps ≡ []
    → add_list_paramameter ps n d t ≡ record { name = n; data_ = some (or_empty d); type = t } ∷ []
unfolding add_list_paramameter
add_to_empty ps n d t e = ap (λ l. add_list_paramameter l n d t) e

some_inj : {a b : ℕ} → some a ≡ some b → a ≡ b
some_inj e = cc

module _ {D : Type 0} (name : Text) where
  -- Not found yet.
  abbrev Looking : DmCtx D → Type 0
  Looking c = (c.in_param ≡ name) × (c.list_parameter ≡ []) × (c.faultcode ≡ fault_9005)

  abbrev pub Found : ℕ × DmCtx D → Type 0
  Found r = (r.0 ≡ 0) × ((p : DmParameter) × (r.1.list_parameter ≡ p ∷ []) × (p.name ≡ name))

  isparam-finds :
      (p : DmParam D) (c : DmCtx D)
      → c.stop ≡ false
      → Looking c
      → Searched get_value_inparam_isparam_check_obj get_value_inparam_isparam_check_param Looking
          Found
          (get_value_inparam_isparam_check_param p c)
  unfolding get_value_inparam_isparam_check_param add_list_paramameter
  isparam-finds p c f (n, empty, code) =
      if_elim
        (Searched get_value_inparam_isparam_check_obj get_value_inparam_isparam_check_param Looking
          Found)
        (not (str_eq c.in_param (full_param p c))) (fault_9005, c)
        (0, record (list_value p c) { stop = true }) (λ _. inl (f, (n, empty, code)))
        (λ e.
          let same_name = str_eq_sound c.in_param (full_param p c) (ground arith) in
          inr (refl, (refl, (_, add_to_empty c.list_parameter _ _ _ empty, sym same_name ∙ n))))

  isparam-Searches :
      Searches {D = D} get_value_inparam_isparam_check_obj get_value_inparam_isparam_check_param
        Looking Found
  unfolding get_value_inparam_isparam_check_obj
  isparam-Searches = record {
    object = λ o c f h. inl (f, h);
    param = isparam-finds;
    at_obj = λ n c h. h;
  }

answer :
    {D : Type 0} (name : Text) (r : Option ℕ × DmCtx D)
    → Ended get_value_inparam_isparam_check_obj get_value_inparam_isparam_check_param
        (Looking name)
        (Found name)
        r
    → let s = or_faultcode r in
      ((s.0 ≡ fault_9005) × (s.1.list_parameter ≡ []))
      ⊎ ((s.0 ≡ 0) × ((p : DmParameter) × (s.1.list_parameter ≡ p ∷ []) × (p.name ≡ name)))
answer name (none, c) (inl (e, f, (n, empty, code))) = inl (code, empty)
answer name (some ret, c) (inl (e, f, h)) = cc
answer name (none, c) (inr (ret, e, h, k)) = cc
answer name (some ret, c) (inr (ret', e, f, (zero_, found))) = inr (some_inj e ∙ zero_, found)

-- GetParameterValues for a name that is no prefix of the table, is not empty and does not end in a
-- dot, from a context that is not stopped and whose list is empty, answers either fault 9005 with
-- the list still empty, or 0 with one parameter, of that very name.
pub dm_entry_get_value_one :
    {D : Type 0} (ms : List (PrefixMethod D)) (c : DmCtx D)
    → (is_nil c.in_param || check_param_prefix ms c.in_param) ≡ false
    → ends_with_dot c.in_param ≡ false
    → c.stop ≡ false
    → c.list_parameter ≡ []
    → let r = dm_entry_get_value ms c in
      ((r.0 ≡ fault_9005) × (r.1.list_parameter ≡ []))
      ⊎ ((r.0 ≡ 0) × ((p : DmParameter) × (r.1.list_parameter ≡ p ∷ []) × (p.name ≡ c.in_param)))
unfolding dm_entry_get_value
dm_entry_get_value_one ms c e e' f empty =
    let searched =
      for_methods-searches _ _ (Looking c.in_param) (Found c.in_param) (isparam-Searches c.in_param)
        ms (record c { faultcode = fault_9005 }) f (refl, empty, refl) in
    rw (e, e', if◌then◌else◌) (answer c.in_param _ searched)
