-- ===== src/Dm/Commit.antt =====
-- SetParameterValues in two phases (dm/dmcwmp.c, dm/dmentry.c): the check of one value.
use icwmp.Prelude.{
  ℕ, true, false, ◌||◌, not, Option, none, some, List, [], ◌∷◌, ◌++◌, ◌≡◌, ◌≢◌, ◌⊎◌, inl, inr, refl,
  sym, subst, if◌then◌else◌, if_elim, arith, Option-cases, ◌==◌,
}
use icwmp.Prelude.Text.{Text, str_eq, or_empty}
use icwmp.Dm.{
  DmCtx, DmParam, PrefixMethod, SetTmp, ParamFault, value_check, value_set, is_nil, ends_with_dot,
}
use icwmp.Dm.Walk.{Searches, Searched, Ended, for_methods-searches}
use icwmp.Dm.Value.{
  dm_entry_set_value, set_value_check_obj, set_value_check_param, check_value, apply_value,
  full_param, or_9005, starts_with_one,
}
use icwmp.Dm.Objects.{dmentry_instance_lookup_inparam}
use icwmp.Dm.Entry.{Uci, dm_entry_param_method, add_list_fault_param, run_cmd, cmd_set_value}

some_inj : {a b : ℕ} → some a ≡ some b → a ≡ b
some_inj e = cc

-- `waiting` are the values that wait to be set, and `faults` those refused, before the check.
module _ {D : Type 0} (name value : Text) (waiting : List SetTmp) (faults : List ParamFault) where
  abbrev Looking : DmCtx D → Type 0
  Looking c =
      (c.setaction ≡ value_check)
      × (c.in_param ≡ name)
      × (c.in_value ≡ value)
      × (c.set_list_tmp ≡ waiting)
      × (c.list_fault_param ≡ faults)

  -- Accepted, and the value waits; or refused, and it does not.
  abbrev pub Checked : ℕ × DmCtx D → Type 0
  Checked r =
      (((r.0 ≡ 0) × (r.1.set_list_tmp ≡ waiting ++ record { name = name; value = value } ∷ []))
        ⊎ ((r.0 ≢ 0) × (r.1.set_list_tmp ≡ waiting)))
      × (r.1.in_param ≡ name)
      × (r.1.list_fault_param ≡ faults)

  abbrev Stops : ℕ × DmCtx D → Type 0
  Stops r = (r.1.stop ≡ true) × Checked r

  check_value-checks :
      (p : DmParam D) (c : DmCtx D) → Looking c → Stops (check_value p (record c { stop = true }))
  unfolding check_value
  check_value-checks p c (a, n, v, w, l) = elim (Option-cases p.set_cmd) [
    | inl e ↦ rw (e, check_value) (refl, (inr ((λ z. ground arith), w), n, l))
    | inr (set_cmd, e) ↦
        rw (e, check_value)
          (let r = set_cmd (full_param p c) c.device value_check c.in_value in
            let item : c.set_list_tmp ++ record { name = c.in_param; value = c.in_value } ∷ []
                ≡ waiting ++ record { name = name; value = value } ∷ [] =
              λ i. w i ++ record { name = n i; value = v i } ∷ [] in
            if_elim Stops (not (starts_with_one p.permission)) _ _
              (λ _. (refl, (inr ((λ z. ground arith), w), n, l)))
              (λ _.
                if_elim Stops (not (r.0 == 0)) _ _
                  (λ f. (refl, (inr ((λ z. ground arith), w), n, l)))
                  (λ _. (refl, (inl (refl, item), n, l)))))
  ]

  set_value-finds :
      (p : DmParam D) (c : DmCtx D)
      → c.stop ≡ false
      → Looking c
      → Searched set_value_check_obj set_value_check_param Looking Checked
          (set_value_check_param p c)
  unfolding set_value_check_param
  set_value-finds p c f h =
      let P = Searched set_value_check_obj set_value_check_param Looking Checked in
      let c1 = record c { stop = true } in
      if_elim P (not (str_eq c.in_param (full_param p c))) _ _ (λ _. inl (f, h))
        (λ _.
          subst (λ a. P (elim a [ value_check ↦ check_value p c1 | value_set ↦ apply_value p c1 ]))
            (sym h.0) (inr (check_value-checks p c h)))

  set_value-Searches : Searches set_value_check_obj set_value_check_param Looking Checked
  unfolding set_value_check_obj
  set_value-Searches = record {
    object = λ o c f h. inl (f, h);
    param = set_value-finds;
    at_obj = λ n c h. h;
  }

  answer :
      (r : Option ℕ × DmCtx D)
      → Ended set_value_check_obj set_value_check_param Looking Checked r
      → Checked (or_9005 r)
  answer (none, c) (inl (e, f, (a, n, v, w, l))) = (inr ((λ z. ground arith), w), n, l)
  answer (some ret, c) (inl (e, f, h)) = cc
  answer (none, c) (inr (ret, e, f, h)) = cc
  answer (some ret, c) (inr (ret', e, f, h)) = subst (λ n. Checked (n, c)) (sym (some_inj e)) h

-- The check of one value: it is accepted with 0 and waits behind those that were, or it is refused with a
-- fault and does not wait.
pub dm_entry_set_value_checks :
    {D : Type 0} (ms : List (PrefixMethod D)) (c : DmCtx D)
    → c.setaction ≡ value_check
    → c.stop ≡ false
    → Checked c.in_param c.in_value c.set_list_tmp c.list_fault_param (dm_entry_set_value ms c)
unfolding dm_entry_set_value
dm_entry_set_value_checks ms c a f =
    let searched =
      for_methods-searches _ _ (Looking c.in_param c.in_value c.set_list_tmp c.list_fault_param)
        (Checked c.in_param c.in_value c.set_list_tmp c.list_fault_param)
        (set_value-Searches c.in_param c.in_value c.set_list_tmp c.list_fault_param) ms c f
        (a, refl, refl, refl, refl) in
    if_elim (Checked c.in_param c.in_value c.set_list_tmp c.list_fault_param)
      (is_nil c.in_param || ends_with_dot c.in_param) _ _
      (λ _. (inr ((λ z. ground arith), refl), refl, refl))
      (λ _. answer c.in_param c.in_value c.set_list_tmp c.list_fault_param _ searched)

-- What the command leaves behind: 0, the value waits and no fault is noted; or a fault, which is noted with
-- the name, and the value does not wait.
abbrev pub Noted : {D : Type 0} → Text → Text → List SetTmp → List ParamFault → ℕ × DmCtx D → Type 0
Noted name value waiting faults r =
    ((r.0 ≡ 0)
      × (r.1.set_list_tmp ≡ waiting ++ record { name = name; value = value } ∷ [])
      × (r.1.list_fault_param ≡ faults))
    ⊎ ((r.0 ≢ 0)
        × (r.1.set_list_tmp ≡ waiting)
        × (r.1.list_fault_param ≡ faults ++ record { name = name; fault = r.0 } ∷ []))

Checked-Noted :
    {D : Type 0} (name value : Text) (waiting : List SetTmp) (faults : List ParamFault)
    (r : ℕ × DmCtx D)
    → Checked name value waiting faults r
    → Noted name value waiting faults
        (if r.0 == 0 then (0, r.1) else (r.0, add_list_fault_param r.1 r.1.in_param r.0))
unfolding add_list_fault_param
Checked-Noted name value waiting faults r (inl (z, w), n, l) =
    if_elim (Noted name value waiting faults) (r.0 == 0) _ _ (λ _. inl (refl, w, l))
      (λ e. ground arith)
Checked-Noted name value waiting faults r (inr (z, w), n, l) =
    if_elim (Noted name value waiting faults) (r.0 == 0) _ _ (λ e. absurd (z (ground arith)))
      (λ _. inr (z, w, λ i. l i ++ record { name = n i; fault = r.0 } ∷ []))

-- dm_entry_param_method for SetValue, whatever the data model holds, ends in one of two ways: with
-- 0, and then the value waits behind those that waited and no fault is noted; or with a fault, and
-- then it does not wait, and the fault is noted with the name behind those noted before.
pub dm_entry_param_method_set :
    {D : Type 0} (u : Uci D) (root : Text) (ms : List (PrefixMethod D)) (c : DmCtx D)
    (inparam arg1 arg2 : Option Text)
    → Noted
        (or_empty inparam)
        (or_empty arg1)
        c.set_list_tmp
        c.list_fault_param
        (dm_entry_param_method u root ms c cmd_set_value inparam arg1 arg2)
unfolding dm_entry_param_method run_cmd dmentry_instance_lookup_inparam
dm_entry_param_method_set u root ms c inparam arg1 arg2 =
    let p = or_empty inparam in
    let c0 = record (dmentry_instance_lookup_inparam (record c { in_param = p })) {
      tree = is_nil p || str_eq p root;
      stop = false;
      in_value = or_empty arg1;
      setaction = value_check;
    } in
    Checked-Noted p (or_empty arg1) c.set_list_tmp c.list_fault_param (dm_entry_set_value ms c0)
      (dm_entry_set_value_checks ms c0 refl refl)
