-- ===== src/Store/LoadSaved.antt =====
-- A request that was saved is in its queue after the loading.
use icwmp.Prelude.{
  subst, [], ◌∷◌, ◌++◌, sym, append-nil, if_elim, Bool, Option, none, some, List, ◌≡◌, refl, ap,
  ◌∙◌, map,
}
use icwmp.Prelude.Text.{Text, strcmp}
use icwmp.Store.Written.{save_with, save_with-at, save_request-save_with}
use icwmp.Store.DuRoundTrip.{
  kept, as_resolved, read_change_du_state-operations, read_du_state_change_complete-opresults,
}
use icwmp.Prelude.Decimal.{ℤ, gt}
use icwmp.Store.Loading.{
  add_by_time, inform_time, download_time, schedule_time, upload_time, by_list_operation, Queues,
  add_schedule_inform, add_download, add_schedule_download, add_apply_schedule_download, add_upload,
  add_change_du_state, add_du_state_change_complete, add_transfer_complete, load_schedule_inform,
  load_download, load_schedule_download, load_apply_schedule_download, load_change_du_state,
  load_upload, load_du_state_change_complete, load_transfer_complete,
}
use icwmp.Store.Node.{
  Node, null, element, text, insert_node, bkp_session_node_found, SearchKeywords,
}
use icwmp.Store.Reload.{load_requests, load_node}
use icwmp.Store.Request.{
  Request, schedule_inform, download, schedule_download, apply_schedule_download, change_du_state,
  upload, transfer_complete, du_state_change_complete, node_name, insert_keys, save_request,
  children,
}
use icwmp.Store.RoundTrip.{
  read_schedule_inform-keys, read_download-keys, read_schedule_download-keys,
  read_apply_schedule_download-keys, read_upload-keys, read_transfer_complete-fields,
}

-- The request as it is put into its queue: what the file does not keep is gone.
unfoldable pub add_request : Option Text → Queues → Request → Queues
add_request v s (schedule_inform r) = add_schedule_inform s r
add_request v s (download r) = add_download s r
add_request v s (schedule_download r) = add_schedule_download s r
add_request v s (apply_schedule_download r) = add_apply_schedule_download s r
add_request v s (change_du_state r) =
    add_change_du_state s (record r { list_operation = map kept r.list_operation })
add_request v s (upload r) = add_upload s (record r { f_instance = none })
add_request v s (transfer_complete r) = add_transfer_complete v s r
add_request v s (du_state_change_complete r) =
    add_du_state_change_complete s (record r { list_opresult = map as_resolved r.list_opresult })

-- `bs` is `xs` with `a` at some place.
pub record OneMore {A : Type 0} (a : A) (xs bs : List A) : Type 0 where
  pub before : List A
  pub after : List A
  pub was : xs ≡ before ++ after
  pub is : bs ≡ before ++ a ∷ after

-- The request is in its queue, in the state `s'` after the loading, in addition to what `s` holds.
abbrev pub Arrived : Request → Queues → Queues → Type 0
Arrived (schedule_inform r) s s' = OneMore r s.list_schedule_inform s'.list_schedule_inform
Arrived (download r) s s' = OneMore r s.list_download s'.list_download
Arrived (schedule_download r) s s' = OneMore r s.list_schedule_download s'.list_schedule_download
Arrived (apply_schedule_download r) s s' =
    OneMore r s.list_apply_schedule_download s'.list_apply_schedule_download
Arrived (change_du_state r) s s' =
    OneMore (by_list_operation (record r { list_operation = [] })) s.list_change_du_state
      s'.list_change_du_state
Arrived (upload r) s s' = OneMore (record r { f_instance = none }) s.list_upload s'.list_upload
Arrived (transfer_complete r) s s' = OneMore r s.transfers s'.transfers
Arrived (du_state_change_complete r) s s' =
    OneMore (record r { list_opresult = map as_resolved r.list_opresult }) s.du_states s'.du_states

add_last : {A : Type 0} (a : A) (xs : List A) → OneMore a xs (xs ++ a ∷ [])
add_last a xs = record { before = xs; after = []; was = sym (append-nil xs); is = refl }

add_by_time-OneMore :
    {A : Type 0} (time : A → ℤ) (a : A) (xs : List A) → OneMore a xs (add_by_time time a xs)
unfolding add_by_time
add_by_time-OneMore time a [] = record { before = []; after = []; was = refl; is = refl }
add_by_time-OneMore time a (b ∷ bs) =
    let rest = add_by_time-OneMore time a bs in
    if_elim (OneMore a (b ∷ bs)) (gt (time b) (time a)) (a ∷ b ∷ bs) (b ∷ add_by_time time a bs)
      (λ _. record { before = []; after = b ∷ bs; was = refl; is = refl })
      (λ _. record {
        before = b ∷ rest.before;
        after = rest.after;
        was = ap (λ r. b ∷ r) rest.was;
        is = ap (λ r. b ∷ r) rest.is;
      })

add_request-Arrived : (v : Option Text) (s : Queues) (q : Request) → Arrived q s (add_request v s q)
unfolding add_request add_schedule_inform add_download add_schedule_download
    add_apply_schedule_download add_upload add_change_du_state add_du_state_change_complete
    add_transfer_complete
add_request-Arrived v s (schedule_inform r) =
    add_by_time-OneMore inform_time r s.list_schedule_inform
add_request-Arrived v s (download r) = add_by_time-OneMore download_time r s.list_download
add_request-Arrived v s (schedule_download r) =
    add_by_time-OneMore schedule_time r s.list_schedule_download
add_request-Arrived v s (apply_schedule_download r) = add_last r s.list_apply_schedule_download
add_request-Arrived v s (change_du_state r) = add_last _ s.list_change_du_state
add_request-Arrived v s (upload r) =
    add_by_time-OneMore upload_time (record r { f_instance = none }) s.list_upload
add_request-Arrived v s (transfer_complete r) = add_last r s.transfers
add_request-Arrived v s (du_state_change_complete r) = add_last _ s.du_states

-- Nothing is looked for, or the search finds nothing.
abbrev pub NotFound : Option (List SearchKeywords) → Node → Request → Type 0
NotFound none t q = Unit
NotFound (some ks) t q = bkp_session_node_found t (node_name q) ks ≡ none

abbrev pub IsNew : Node → Request → Type 0
IsNew t q = NotFound (insert_keys q) t q

load_requests-last :
    (v : Option Text) (s : Queues) (t : Node) (m : Text) (c : Node)
    → load_requests v s (insert_node t m c) ≡ load_node v (load_requests v s t) m c
unfolding load_requests
load_requests-last v s null m c = refl
load_requests-last v s (text w n) m c = load_requests-last v s n m c
load_requests-last v s (element x d n) m c = load_requests-last v (load_node v s x d) n m c

module _ (sprintf_b : Bool → Text) (softwareversion : Option Text) where
  load_node-children :
      (s : Queues) (q : Request)
      → load_node softwareversion s (node_name q) (children sprintf_b q)
        ≡ add_request softwareversion s q
  unfolding load_node strcmp add_request load_download load_upload load_transfer_complete
      load_schedule_inform load_change_du_state load_du_state_change_complete load_schedule_download
      load_apply_schedule_download
  load_node-children s (schedule_inform r) =
      ap (add_schedule_inform s) (read_schedule_inform-keys r)
  load_node-children s (download r) = ap (add_download s) (read_download-keys r)
  load_node-children s (schedule_download r) =
      ap (add_schedule_download s) (read_schedule_download-keys r)
  load_node-children s (apply_schedule_download r) =
      ap (add_apply_schedule_download s) (read_apply_schedule_download-keys r)
  load_node-children s (change_du_state r) =
      ap (add_change_du_state s) (read_change_du_state-operations r)
  load_node-children s (upload r) = ap (add_upload s) (read_upload-keys r)
  load_node-children s (transfer_complete r) =
      ap (add_transfer_complete softwareversion s) (read_transfer_complete-fields r)
  load_node-children s (du_state_change_complete r) =
      ap (add_du_state_change_complete s) (read_du_state_change_complete-opresults sprintf_b r)

  save_new :
      (o : Option (List SearchKeywords)) (t : Node) (q : Request)
      → NotFound o t q
      → save_with sprintf_b o t q ≡ insert_node t (node_name q) (children sprintf_b q)
  save_new none t q h = refl
  save_new (some ks) t q h = save_with-at sprintf_b ks t q none h

  load_requests-add_request :
      (s : Queues) (t : Node) (q : Request)
      → IsNew t q
      → load_requests softwareversion s (save_request sprintf_b t q)
        ≡ add_request softwareversion (load_requests softwareversion s t) q
  load_requests-add_request s t q h =
      ap (load_requests softwareversion s)
        (save_request-save_with sprintf_b t q ∙ save_new (insert_keys q) t q h)
      ∙ load_requests-last softwareversion s t (node_name q) (children sprintf_b q)
      ∙ load_node-children _ q

  -- A request that is saved in the backup tree is loaded again: from a tree in which the search
  -- before the insertion finds nothing, where there is such a search, the loading of the tree with
  -- the request ends with one entry more in the queue of its kind than the loading without it, at
  -- some place, the others in their order, and with the state that the addition of that entry
  -- gives. The entry is the request, but an upload without its file instance, the results of a
  -- DUStateChangeComplete as resolved, and a ChangeDUState without its operations, linked by the
  -- member `list_operation`.
  pub load_requests-save_request :
      (s : Queues) (t : Node) (q : Request)
      → IsNew t q
      → let without = load_requests softwareversion s t in
        let loaded = load_requests softwareversion s (save_request sprintf_b t q) in
        Arrived q without loaded × (loaded ≡ add_request softwareversion without q)
  load_requests-save_request s t q h =
      let e = load_requests-add_request s t q h in
      (
        subst (Arrived q (load_requests softwareversion s t)) (sym e)
            (add_request-Arrived softwareversion (load_requests softwareversion s t) q),
        e,
      )
