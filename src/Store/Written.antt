-- ===== src/Store/Written.antt =====
-- What the functions that write and delete a request have in common (backupSession.c), and that the children
-- of a node that is written have the keys by which it is deleted.
use icwmp.Prelude.{ℕ, Bool, Option, none, some, List, [], ◌∷◌, ◌≡◌, refl, ap, ◌∙◌}
use icwmp.Prelude.Decimal.{sprintf_d}
use icwmp.Prelude.Text.{Text, strcmp, str_eq_self}
use icwmp.Store.Node.{
  Node, null, element, insert_all, insert_node, SearchKeywords, keys_left, bkp_session_node_found,
  insert_unless_found, delete_found, delete_at, bkp_session_insert,
}
use icwmp.Store.Request.{
  Request, schedule_inform, download, schedule_download, apply_schedule_download, change_du_state,
  upload, transfer_complete, du_state_change_complete, node_name, delete_keys, insert_keys,
  delete_request, save_request, children,
}
use icwmp.Store.Requests.{
  DuStateType, du_install, du_update, du_uninstall, TransferComplete, Operation, OpResult,
}
use icwmp.Store.Search.{keys_left-insert_all, value_matches_self, keys_left-add_last, keys_left_nil}
use icwmp.Store.Writers.{
  transfer_complete_keys, transfer_complete_fields, bkp_session_insert_schedule_inform,
  bkp_session_insert_download, bkp_session_insert_schedule_download,
  bkp_session_insert_apply_schedule_download, bkp_session_insert_upload,
  bkp_session_insert_transfer_complete, bkp_session_delete_schedule_inform,
  bkp_session_delete_download, bkp_session_delete_schedule_download,
  bkp_session_delete_apply_schedule_download, bkp_session_delete_upload,
  bkp_session_delete_transfer_complete,
}
use icwmp.Store.DuWriters.{
  change_du_state_keys, du_state_change_complete_keys, insert_operation, insert_operations,
  insert_opresult, insert_opresults, bkp_session_insert_change_du_state,
  bkp_session_delete_change_du_state, bkp_session_insert_du_state_change_complete,
  bkp_session_delete_du_state_change_complete,
}

-- What the functions that write a request have in common.
module _ (sprintf_b : Bool → Text) where
  abbrev pub save_with : Option (List SearchKeywords) → Node → Request → Node
  save_with none t q = insert_node t (node_name q) (children sprintf_b q)
  save_with (some ks) t q = elim (bkp_session_node_found t (node_name q) ks) [
    | some p ↦ t
    | none ↦ insert_node t (node_name q) (children sprintf_b q)
  ]

  pub save_request-save_with :
      (t : Node) (q : Request) → save_request sprintf_b t q ≡ save_with (insert_keys q) t q
  unfolding bkp_session_insert_schedule_inform bkp_session_insert_download
      bkp_session_insert_schedule_download bkp_session_insert_apply_schedule_download
      bkp_session_insert_change_du_state bkp_session_insert_upload
      bkp_session_insert_transfer_complete bkp_session_insert_du_state_change_complete
      insert_unless_found
  save_request-save_with t (schedule_inform r) = refl
  save_request-save_with t (download r) = refl
  save_request-save_with t (schedule_download r) = refl
  save_request-save_with t (apply_schedule_download r) = refl
  save_request-save_with t (change_du_state r) = refl
  save_request-save_with t (upload r) = refl
  save_request-save_with t (transfer_complete r) = refl
  save_request-save_with t (du_state_change_complete r) = refl

pub delete_request-delete_found :
    (t : Node) (q : Request) → delete_request t q ≡ delete_found t (node_name q) (delete_keys q)
unfolding bkp_session_delete_schedule_inform bkp_session_delete_download
    bkp_session_delete_schedule_download bkp_session_delete_apply_schedule_download
    bkp_session_delete_change_du_state bkp_session_delete_upload
    bkp_session_delete_transfer_complete bkp_session_delete_du_state_change_complete
delete_request-delete_found t (schedule_inform r) = refl
delete_request-delete_found t (download r) = refl
delete_request-delete_found t (schedule_download r) = refl
delete_request-delete_found t (apply_schedule_download r) = refl
delete_request-delete_found t (change_du_state r) = refl
delete_request-delete_found t (upload r) = refl
delete_request-delete_found t (transfer_complete r) = refl
delete_request-delete_found t (du_state_change_complete r) = refl

-- Keys that are found stay found when children follow.
pub keys_left-behind :
    (b c : Node) (m : Text) (ks : List SearchKeywords)
    → keys_left b ks ≡ []
    → keys_left (insert_node b m c) ks ≡ []
keys_left-behind b c m ks h =
    keys_left-add_last b (element m c null) ks
    ∙ ap (keys_left (element m c null)) h
    ∙ keys_left_nil (element m c null)

keys_left-operation :
    (ty : DuStateType) (b : Node) (p : Operation) (ks : List SearchKeywords)
    → keys_left b ks ≡ []
    → keys_left (insert_operation b (record p { type = ty })) ks ≡ []
unfolding insert_operation
keys_left-operation du_install b p ks h = keys_left-behind b _ _ ks h
keys_left-operation du_update b p ks h = keys_left-behind b _ _ ks h
keys_left-operation du_uninstall b p ks h = keys_left-behind b _ _ ks h

keys_left-operations :
    (b : Node) (ps : List Operation) (ks : List SearchKeywords)
    → keys_left b ks ≡ []
    → keys_left (insert_operations b ps) ks ≡ []
unfolding insert_operations
keys_left-operations b [] ks h = h
keys_left-operations b (p ∷ ps) ks h =
    keys_left-operations (insert_operation b p) ps ks (keys_left-operation p.type b p ks h)

keys_left-opresults :
    (sprintf_b : Bool → Text) (b : Node) (ps : List OpResult) (ks : List SearchKeywords)
    → keys_left b ks ≡ []
    → keys_left (insert_opresults sprintf_b b ps) ks ≡ []
unfolding insert_opresults insert_opresult
keys_left-opresults f b [] ks h = h
keys_left-opresults f b (p ∷ ps) ks h =
    keys_left-opresults f (insert_opresult f b p) ps ks (keys_left-behind b _ _ ks h)

transfer_complete_found :
    (r : TransferComplete)
    → keys_left (insert_all null (transfer_complete_fields r)) (transfer_complete_keys r) ≡ []
unfolding bkp_session_insert keys_left strcmp
transfer_complete_found r =
    rw
      (
        value_matches_self r.command_key,
        value_matches_self r.start_time,
        value_matches_self r.complete_time,
        str_eq_self (sprintf_d r.fault_code),
        str_eq_self (sprintf_d r.type),
      )
      refl

-- The children that are written have the keys by which the request is deleted.
pub keys_left-children :
    (sprintf_b : Bool → Text) (q : Request) → keys_left (children sprintf_b q) (delete_keys q) ≡ []
keys_left-children f (schedule_inform r) = keys_left-insert_all _
keys_left-children f (download r) = keys_left-insert_all _
keys_left-children f (schedule_download r) = keys_left-insert_all _
keys_left-children f (apply_schedule_download r) = keys_left-insert_all _
keys_left-children f (change_du_state r) =
    keys_left-operations _ r.list_operation _ (keys_left-insert_all (change_du_state_keys r))
keys_left-children f (upload r) = keys_left-insert_all _
keys_left-children f (transfer_complete r) = transfer_complete_found r
keys_left-children f (du_state_change_complete r) =
    keys_left-opresults f _ r.list_opresult _
      (keys_left-insert_all (du_state_change_complete_keys r))

-- What is deleted where the search ends.
pub delete_found-at :
    (t : Node) (m : Text) (ks : List SearchKeywords) (o : Option ℕ)
    → bkp_session_node_found t m ks ≡ o
    → delete_found t m ks ≡ elim o [ some p ↦ delete_at t p | none ↦ t ]
unfolding delete_found
delete_found-at t m ks o e = ap (λ (x : Option ℕ). elim x [ some p ↦ delete_at t p | none ↦ t ]) e

-- What is inserted where the search ends.
pub save_with-at :
    (f : Bool → Text) (ks : List SearchKeywords) (t : Node) (q : Request) (o : Option ℕ)
    → bkp_session_node_found t (node_name q) ks ≡ o
    → save_with f (some ks) t q
      ≡ elim o [ some p ↦ t | none ↦ insert_node t (node_name q) (children f q) ]
save_with-at f ks t q o e =
    ap (λ (x : Option ℕ). elim x [ some p ↦ t | none ↦ insert_node t (node_name q) (children f q) ])
      e

pub insert_unless_found-none :
    (t : Node) (m : Text) (ks fs : List SearchKeywords)
    → bkp_session_node_found t m ks ≡ none
    → insert_unless_found t m ks fs ≡ insert_node t m (insert_all null fs)
unfolding insert_unless_found
insert_unless_found-none t m ks fs e =
    ap (λ (x : Option ℕ). elim x [ some p ↦ t | none ↦ insert_node t m (insert_all null fs) ]) e
