-- ===== src/Store/DuRoundTrip.antt =====
-- What is read back of the operations on deployment units and of their results.
use icwmp.Prelude.{
  Bool, true, none, List, [], ◌∷◌, ◌++◌, ◌≡◌, refl, sym, ap, ◌∙◌, map, append_assoc, append-nil,
}
use icwmp.Prelude.Decimal.{atoi-sprintf_d}
use icwmp.Prelude.Text.{Text, strcmp}
use icwmp.Store.Node.{Node, null, element, text, add_last, insert_all, bkp_session_insert}
use icwmp.Store.Requests.{
  Operation, du_install, du_update, du_uninstall, DuStateType, ChangeDuState, OpResult,
  DuStateChangeComplete,
}
use icwmp.Store.DuWriters.{
  insert_operation, insert_operations, change_du_state_keys, insert_opresult, insert_opresults,
  du_state_change_complete_keys,
}
use icwmp.Store.Readers.{walk}
use icwmp.Store.RoundTrip.{text_back}
use icwmp.Store.States.{
  change_du_state_field, add_operation, read_change_du_state, add_opresult,
  du_state_change_complete_field, read_du_state_change_complete,
}

pub walk-add_last {ℓ} :
    {A : Type ℓ} (f : A → Text → Node → A) (a : A) (t b : Node)
    → walk f a (add_last t b) ≡ walk f (walk f a t) b
walk-add_last f a null b = refl
walk-add_last f a (text v n) b = walk-add_last f a n b
walk-add_last f a (element m c n) b = walk-add_last f (f a m c) n b

-- The part of an operation that its type has.
abbrev pub kept_fields : DuStateType → Operation → Operation
kept_fields du_install p = record p { type = du_install; version = none }
kept_fields du_uninstall p = record p {
  type = du_uninstall;
  url = none;
  username = none;
  password = none;
}
kept_fields du_update p = record p { type = du_update; executionenvref = none }

abbrev pub kept : Operation → Operation
kept p = kept_fields p.type p

of_type :
    (t : DuStateType) (r : ChangeDuState) (b : Node) (p : Operation)
    → walk change_du_state_field r (insert_operation b (record p { type = t }))
      ≡ add_operation (walk change_du_state_field r b) (kept_fields t p)
unfolding insert_operation bkp_session_insert strcmp
of_type du_install r b p =
    walk-add_last change_du_state_field r b _
    ∙ ap (add_operation _) (λ i. record {
      type = du_install;
      url = text_back p.url i;
      uuid = text_back p.uuid i;
      version = none;
      username = text_back p.username i;
      password = text_back p.password i;
      executionenvref = text_back p.executionenvref i;
    })
of_type du_uninstall r b p =
    walk-add_last change_du_state_field r b _
    ∙ ap (add_operation _) (λ i. record {
      type = du_uninstall;
      url = none;
      uuid = text_back p.uuid i;
      version = text_back p.version i;
      username = none;
      password = none;
      executionenvref = text_back p.executionenvref i;
    })
of_type du_update r b p =
    walk-add_last change_du_state_field r b _
    ∙ ap (add_operation _) (λ i. record {
      type = du_update;
      url = text_back p.url i;
      uuid = text_back p.uuid i;
      version = text_back p.version i;
      username = text_back p.username i;
      password = text_back p.password i;
      executionenvref = none;
    })

walk-insert_operations :
    (r : ChangeDuState) (b : Node) (ps : List Operation)
    → walk change_du_state_field r (insert_operations b ps) ≡ (
        let s : ChangeDuState = walk change_du_state_field r b in
        record s { list_operation = s.list_operation ++ map kept ps })
unfolding insert_operations
walk-insert_operations r b [] = λ i.
    let s : ChangeDuState = walk change_du_state_field r b in
    record s { list_operation = sym (append-nil s.list_operation) i }
walk-insert_operations r b (p ∷ ps) =
    walk-insert_operations r (insert_operation b p) ps
    ∙ ap (λ (s : ChangeDuState). record s { list_operation = s.list_operation ++ map kept ps })
        (of_type p.type r b p)
    ∙ (λ i.
        let s : ChangeDuState = walk change_du_state_field r b in
        record s { list_operation = append_assoc s.list_operation (kept p ∷ []) (map kept ps) i })

pub read_change_du_state-operations :
    (r : ChangeDuState)
    → read_change_du_state
        (insert_operations (insert_all null (change_du_state_keys r)) r.list_operation)
      ≡ record r { list_operation = map kept r.list_operation }
unfolding read_change_du_state bkp_session_insert strcmp
read_change_du_state-operations r =
    walk-insert_operations _ (insert_all null (change_du_state_keys r)) r.list_operation ∙ (λ i.
      record {
        timeout = atoi-sprintf_d r.timeout i;
        command_key = text_back r.command_key i;
        list_operation = map kept r.list_operation;
      })

-- A result that has been read says `resolved`, whatever was written.
abbrev pub as_resolved : OpResult → OpResult
as_resolved p = record p { resolved = true }

module _ (sprintf_b : Bool → Text) where
  walk-insert_opresults :
      (r : DuStateChangeComplete) (b : Node) (ps : List OpResult)
      → walk du_state_change_complete_field r (insert_opresults sprintf_b b ps) ≡ (
          let s : DuStateChangeComplete = walk du_state_change_complete_field r b in
          record s { list_opresult = s.list_opresult ++ map as_resolved ps })
  unfolding insert_opresults insert_opresult bkp_session_insert strcmp
  walk-insert_opresults r b [] = λ i.
      let s : DuStateChangeComplete = walk du_state_change_complete_field r b in
      record s { list_opresult = sym (append-nil s.list_opresult) i }
  walk-insert_opresults r b (p ∷ ps) =
      walk-insert_opresults r (insert_opresult sprintf_b b p) ps
      ∙ ap
          (λ (s : DuStateChangeComplete). record s {
            list_opresult = s.list_opresult ++ map as_resolved ps;
          })
          (walk-add_last du_state_change_complete_field r b _
            ∙ ap (add_opresult _) (λ i. record {
              uuid = text_back p.uuid i;
              du_ref = text_back p.du_ref i;
              version = text_back p.version i;
              current_state = text_back p.current_state i;
              resolved = true;
              execution_unit_ref = text_back p.execution_unit_ref i;
              start_time = text_back p.start_time i;
              complete_time = text_back p.complete_time i;
              fault = atoi-sprintf_d p.fault i;
            }))
      ∙ (λ i.
          let s : DuStateChangeComplete = walk du_state_change_complete_field r b in
          record s {
            list_opresult =
                append_assoc s.list_opresult (as_resolved p ∷ []) (map as_resolved ps) i;
          })

  pub read_du_state_change_complete-opresults :
      (r : DuStateChangeComplete)
      → read_du_state_change_complete (
          insert_opresults sprintf_b
            (insert_all null (du_state_change_complete_keys r))
            r.list_opresult)
        ≡ record r { list_opresult = map as_resolved r.list_opresult }
  unfolding read_du_state_change_complete bkp_session_insert strcmp
  read_du_state_change_complete-opresults r = walk-insert_opresults _ _ r.list_opresult ∙ (λ i.
      record {
        command_key = text_back r.command_key i;
        timeout = atoi-sprintf_d r.timeout i;
        list_opresult = map as_resolved r.list_opresult;
      })
