-- ===== src/Dm/Apply.antt =====
-- SetParameterValues is carried out (dm_entry_apply of dm/dmentry.c).
use icwmp.Prelude.{
  ℕ, true, false, ◌||◌, not, Option, none, some, List, [], ◌∷◌, ◌++◌, ◌≡◌, ◌≢◌, ◌⊎◌, inl, inr, refl,
  ap, if◌then◌else◌, if_elim, arith, ◌==◌, Option-cases, Bool-cases,
}
use icwmp.Prelude.Text.{Text, str_eq}
use icwmp.Dm.{
  DmCtx, DmParam, PrefixMethod, SetTmp, ParamFault, value_check, value_set, is_nil, ends_with_dot,
}
use icwmp.Dm.Walk.{Keeps, for_methods-keeps}
use icwmp.Dm.Value.{
  dm_entry_set_value, set_value_check_obj, set_value_check_param, check_value, apply_value,
  full_param, or_9005, starts_with_one,
}
use icwmp.Dm.Entry.{Uci, dm_entry_apply, apply_values, add_list_fault_param}

module _ {D : Type 0} (faults : List ParamFault) where
  -- The faults that were noted are still all that are.
  abbrev SameFaults : DmCtx D → Type 0
  SameFaults c = c.list_fault_param ≡ faults

  abbrev SameFaultsAfter : ℕ × DmCtx D → Type 0
  SameFaultsAfter r = SameFaults r.1

  check_value-keeps :
      (p : DmParam D) (c : DmCtx D) → SameFaults c → SameFaultsAfter (check_value p c)
  unfolding check_value
  check_value-keeps p c h = elim (Option-cases p.set_cmd) [
    | inl e ↦ rw (e, check_value) h
    | inr (set_cmd, e) ↦
        rw (e, check_value)
          (if_elim SameFaultsAfter (not (starts_with_one p.permission)) _ _ (λ _. h)
            (λ _.
              if_elim SameFaultsAfter
                (not ((set_cmd (full_param p c) c.device value_check c.in_value).0 == 0)) _ _
                (λ _. h) (λ _. h)))
  ]

  apply_value-keeps :
      (p : DmParam D) (c : DmCtx D) → SameFaults c → SameFaultsAfter (apply_value p c)
  unfolding apply_value
  apply_value-keeps p c h = elim (Option-cases p.set_cmd) [
    | inl e ↦ rw (e, apply_value) h
    | inr (set_cmd, e) ↦ rw (e, apply_value) h
  ]

  set_value-Keeps : Keeps set_value_check_obj set_value_check_param SameFaults
  unfolding set_value_check_obj set_value_check_param
  set_value-Keeps = record {
    object = λ o c h. h;
    param = λ p c h.
        if_elim SameFaultsAfter (not (str_eq c.in_param (full_param p c))) _ _ (λ _. h)
          (λ _. by_action p (record c { stop = true }) h);
    at_obj = λ name c h. h;
  }
    where
      by_action :
          (p : DmParam D) (c : DmCtx D)
          → SameFaults c
          → SameFaultsAfter
              (elim c.setaction [ value_check ↦ check_value p c | value_set ↦ apply_value p c ])
      by_action p c h =
          elim c.setaction
            as (λ a.
              SameFaultsAfter
                (elim a [ value_check ↦ check_value p c | value_set ↦ apply_value p c ])) [
                  | value_check ↦ check_value-keeps p c h
                  | value_set ↦ apply_value-keeps p c h
                ]

  or_9005-keeps : (r : Option ℕ × DmCtx D) → SameFaults r.1 → SameFaultsAfter (or_9005 r)
  or_9005-keeps (none, c) h = h
  or_9005-keeps (some ret, c) h = h

  dm_entry_set_value-keeps :
      (ms : List (PrefixMethod D)) (c : DmCtx D)
      → SameFaults c
      → SameFaultsAfter (dm_entry_set_value ms c)
  unfolding dm_entry_set_value
  dm_entry_set_value-keeps ms c h =
      if_elim SameFaultsAfter (is_nil c.in_param || ends_with_dot c.in_param) _ _ (λ _. h)
        (λ _. or_9005-keeps _ (for_methods-keeps _ _ SameFaults set_value-Keeps ms c h))

  apply_values-keeps :
      (ms : List (PrefixMethod D)) (ns : List SetTmp) (c : DmCtx D)
      → SameFaults c
      → SameFaultsAfter (apply_values ms ns c)
  unfolding apply_values
  apply_values-keeps ms [] c h = h
  apply_values-keeps ms (n ∷ ns) c h =
      let w =
        dm_entry_set_value-keeps ms
          (record c { in_param = n.name; in_value = n.value; stop = false }) h in
      let later = apply_values-keeps ms ns _ w in
      if_elim SameFaultsAfter (_ == 0) _ _ (λ _. later) (λ _. w)

-- dm_entry_apply for SetValue, whatever the data model holds, leaves no value waiting; it either
-- returns 0 and notes no fault, or returns a fault and notes just that one, behind those noted
-- before.
pub dm_entry_apply_lem :
    {D : Type 0} (u : Uci D) (ms : List (PrefixMethod D)) (c : DmCtx D) (arg1 : Option Text)
    → let (fault, d) = dm_entry_apply u ms c arg1 in
      (d.set_list_tmp ≡ [])
      × (((fault ≡ 0) × (d.list_fault_param ≡ c.list_fault_param))
          ⊎ ((fault ≢ 0)
              × ((name : Text) × (d.list_fault_param
                    ≡ c.list_fault_param ++ record { name = name; fault = fault } ∷ []))))
unfolding dm_entry_apply add_list_fault_param
dm_entry_apply_lem u ms c arg1 =
    let c0 = record c { setaction = value_set; tree = false } in
    let r = apply_values ms c.set_list_tmp c0 in
    let same = apply_values-keeps c.list_fault_param ms c.set_list_tmp c0 refl in
    elim (Bool-cases (r.0 == 0)) [
      | inl e ↦ rw (e, if◌then◌else◌) (refl, inl (ground arith, same))
      | inr e ↦
          rw (e, if◌then◌else◌)
            (
              refl,
              inr (
                (λ z. ground arith),
                (
                  r.1.in_param,
                  ap (λ l. l ++ record { name = r.1.in_param; fault = r.0 } ∷ []) same,
                ),
              ),
            )
    ]
