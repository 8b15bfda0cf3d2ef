-- ===== src/Dm/Objects.antt =====
-- AddObject, DeleteObject, the parameters of an Inform, and linkers (dm/dmcwmp.c).
use icwmp.Prelude.{
  ℕ, Bool, true, false, ◌&&◌, not, Option, none, some, List, [], ◌∷◌, ◌++◌, ◌==◌, if◌then◌else◌,
  ◌^◌, ◌%◌, suc, bit_or,
}
use icwmp.Prelude.Text.{Text, codes, str_eq}
use icwmp.Dm.{DmCtx, DmObject, DmParam, PrefixMethod, fault_9005, for_methods}
use icwmp.Dm.Attributes.{call_all}
use icwmp.Dm.Notify.{set_parameter_notification, strtok, is_instance, is_alias}
use icwmp.Dm.Value.{full_param, list_value, or_9005}

-- The loop of dmentry_instance_lookup_inparam: the bits of the aliases, and the number of instances.
unfoldable pub lookup_instances : List Text → ℕ → ℕ → ℕ × ℕ
lookup_instances [] alias_register i = (alias_register, i)
lookup_instances (pch ∷ ps) alias_register i =
    let alias = lookup_instances ps (bit_or alias_register (2 ^ i % 2 ^ 32)) (suc i) in
    let instance' = lookup_instances ps alias_register (suc i) in
    let name = lookup_instances ps alias_register i in
    if is_alias pch then alias else if is_instance pch then instance' else name

module _ {D : Type 0} where
  unfoldable pub add_object_obj : DmObject D → DmCtx D → ℕ × DmCtx D
  unfolding set_parameter_notification
  add_object_obj o c =
      let c1 = record c { stop = true } in
      if not (str_eq c.current_obj c.in_param) then (fault_9005, c) else elim o.addobj [
        | none ↦ (fault_9005, c1)
        | some addobj ↦
            let ((fault, instance'), d) = addobj c.device in
            let c2 = record c1 { device = d } in
            if not (fault == 0) then (fault, c2) else (
              0,
              record c2 {
                addobj_instance = some instance';
                notifications =
                    (set_parameter_notification c.inst_buf c.notifications
                      (c.current_obj ++ instance' ++ b'.' ∷ []) (codes "0")).1;
              },
            )
      ]

  unfoldable pub add_object_param : DmParam D → DmCtx D → ℕ × DmCtx D
  add_object_param p c = (fault_9005, c)

  unfoldable pub dm_entry_add_object : List (PrefixMethod D) → DmCtx D → ℕ × DmCtx D
  unfolding for_methods
  dm_entry_add_object ms c =
      if c.tree then (fault_9005, c) else or_9005 (for_methods add_object_obj add_object_param ms c)

  unfoldable pub delete_object_obj : DmObject D → DmCtx D → ℕ × DmCtx D
  delete_object_obj o c =
      let c1 = record c { stop = true } in
      if not (str_eq c.current_obj c.in_param) then (fault_9005, c) else elim o.delobj [
        | none ↦ (fault_9005, c1)
        | some delobj ↦ let (fault, d) = delobj c.device in (fault, record c1 { device = d })
      ]

  unfoldable pub delete_object_param : DmParam D → DmCtx D → ℕ × DmCtx D
  delete_object_param p c = (fault_9005, c)

  unfoldable pub dm_entry_delete_object : List (PrefixMethod D) → DmCtx D → ℕ × DmCtx D
  unfolding for_methods
  dm_entry_delete_object ms c =
      if c.tree
      then (fault_9005, c)
      else or_9005 (for_methods delete_object_obj delete_object_param ms c)

  unfoldable pub inform_check_obj : DmObject D → DmCtx D → ℕ × DmCtx D
  inform_check_obj o c = (fault_9005, c)

  unfoldable pub inform_check_param : DmParam D → DmCtx D → ℕ × DmCtx D
  inform_check_param p c = if p.forced_inform then (0, list_value p c) else (fault_9005, c)

  unfoldable pub dm_entry_inform : List (PrefixMethod D) → DmCtx D → DmCtx D
  unfolding call_all
  dm_entry_inform ms c =
      call_all (λ m. m.enable && m.forced_inform) inform_check_obj inform_check_param ms c

  -- `linker && strcmp(linker, ctx->linker) == 0`; a NULL `ctx->linker` is read in C.
  abbrev is_linker : Option Text → DmCtx D → Bool
  is_linker none c = false
  is_linker (some l) c = elim c.linker [ none ↦ false | some k ↦ str_eq l k ]

  unfoldable pub get_linker_check_obj : DmObject D → DmCtx D → ℕ × DmCtx D
  get_linker_check_obj o c =
      if is_linker o.linker c
      then (0, record c { linker_param = some c.current_obj; stop = true })
      else (fault_9005, c)

  unfoldable pub get_linker_check_param : DmParam D → DmCtx D → ℕ × DmCtx D
  get_linker_check_param p c =
      if is_linker p.linker c
      then (0, record c { linker_param = some (full_param p c); stop = true })
      else (fault_9005, c)

  abbrev or_0 : Option ℕ × DmCtx D → ℕ × DmCtx D
  or_0 (none, c) = (0, c)
  or_0 (some ret, c) = (ret, c)

  unfoldable pub dm_entry_get_linker : List (PrefixMethod D) → DmCtx D → ℕ × DmCtx D
  unfolding for_methods
  dm_entry_get_linker ms c = or_0 (for_methods get_linker_check_obj get_linker_check_param ms c)

  -- The test `linker && strcmp(name, in_param) == 0`, and what follows it.
  abbrev found_linker : Option Text → Text → DmCtx D → ℕ × DmCtx D
  found_linker none name c = (fault_9005, c)
  found_linker (some l) name c =
      if str_eq name c.in_param
      then (0, record c { linker = some l; stop = true })
      else (fault_9005, c)

  unfoldable pub get_linker_value_check_obj : DmObject D → DmCtx D → ℕ × DmCtx D
  get_linker_value_check_obj o c = found_linker o.linker c.current_obj c

  unfoldable pub get_linker_value_check_param : DmParam D → DmCtx D → ℕ × DmCtx D
  get_linker_value_check_param p c = found_linker p.linker (full_param p c) c

  unfoldable pub dmentry_instance_lookup_inparam : DmCtx D → DmCtx D
  unfolding lookup_instances strtok
  dmentry_instance_lookup_inparam c =
      let found = lookup_instances (strtok [] c.in_param) c.alias_register 0 in
      record c { alias_register = found.0; nbrof_instance = found.1 }

  unfoldable pub dm_entry_get_linker_value : List (PrefixMethod D) → DmCtx D → ℕ × DmCtx D
  unfolding for_methods dmentry_instance_lookup_inparam
  dm_entry_get_linker_value ms c = or_0 (
      for_methods get_linker_value_check_obj get_linker_value_check_param ms
        (dmentry_instance_lookup_inparam c))
