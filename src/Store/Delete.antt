-- ===== src/Store/Delete.antt =====
-- Laws of writing and deleting a request (bkp_session_insert_*, bkp_session_delete_* of backupSession.c).
use icwmp.Prelude.{
  ℕ, Bool, false, sym, Option, none, some, List, ◌≡◌, refl, ap, ◌∙◌, Option-cases, inl, inr,
}
use icwmp.Prelude.Text.{Text, codes, strcmp}
use icwmp.Store.Node.{
  Node, null, insert_all, insert_node, SearchKeywords, keys_left, is_nil, bkp_session_node_found,
  delete_found, bkp_session_insert,
}
use icwmp.Store.Request.{
  Request, node_name, delete_keys, insert_keys, delete_request, save_request, children,
}
use icwmp.Store.Requests.{ApplyScheduleDownload}
use icwmp.Store.Search.{
  count, bkp_session_node_found-last, delete_at-last, bkp_session_node_found-not_last,
  value_matches_self,
}
use icwmp.Store.Writers.{
  apply_schedule_download_keys, apply_schedule_download_insert_keys,
  bkp_session_insert_apply_schedule_download,
}
use icwmp.Store.Written.{
  save_with, save_request-save_with, delete_request-delete_found, keys_left-children,
  delete_found-at, save_with-at, insert_unless_found-none,
}

module _ (sprintf_b : Bool → Text) where
  -- In a tree in which no node with the keys of a request is found, saving the request and deleting
  -- it again gives back the tree, for all eight kinds of requests, also those whose insertion looks
  -- for other keys or for none.
  pub delete_request-save_request :
      (t : Node) (q : Request)
      → bkp_session_node_found t (node_name q) (delete_keys q) ≡ none
      → delete_request (save_request sprintf_b t q) q ≡ t
  delete_request-save_request t q h =
      delete_request-delete_found _ q
      ∙ ap (λ x. delete_found x (node_name q) (delete_keys q))
          (save_request-save_with sprintf_b t q)
      ∙ by_keys (insert_keys q)
    where
      added :
          delete_found
            (insert_node t (node_name q) (children sprintf_b q))
            (node_name q)
            (delete_keys q)
          ≡ t
      added =
          delete_found-at _ (node_name q) (delete_keys q) _ (
            bkp_session_node_found-last t (children sprintf_b q) (node_name q) (delete_keys q)
              (keys_left-children sprintf_b q) h)
          ∙ delete_at-last t (children sprintf_b q) (node_name q)

      kept : delete_found t (node_name q) (delete_keys q) ≡ t
      kept = delete_found-at t (node_name q) (delete_keys q) _ h

      by_keys : (o : _) → delete_found (save_with sprintf_b o t q) (node_name q) (delete_keys q) ≡ t
      by_keys none = added
      by_keys (some ks) = by_place (bkp_session_node_found t (node_name q) ks)
        where
          by_place :
              (o : Option ℕ)
              → delete_found
                  (elim o [
                    | some p ↦ t
                    | none ↦ insert_node t (node_name q) (children sprintf_b q)
                  ])
                  (node_name q)
                  (delete_keys q)
                ≡ t
          by_place none = added
          by_place (some p) = kept

  -- Saving a request twice is the same as saving it once, for the kinds of requests whose insertion
  -- looks for the keys by which they are deleted: scheduled informs, downloads, scheduled
  -- downloads, uploads and transfers.
  pub save_request-idempotent :
      (t : Node) (q : Request)
      → insert_keys q ≡ some (delete_keys q)
      → save_request sprintf_b (save_request sprintf_b t q) q ≡ save_request sprintf_b t q
  save_request-idempotent t q h =
      ap (λ x. save_request sprintf_b x q) first
      ∙ save_request-save_with sprintf_b _ q
      ∙ ap (λ o. save_with sprintf_b o (save_with sprintf_b (some ks) t q) q) h
      ∙ again
      ∙ sym first
    where
      ks : List SearchKeywords
      ks = delete_keys q

      first : save_request sprintf_b t q ≡ save_with sprintf_b (some ks) t q
      first = save_request-save_with sprintf_b t q ∙ ap (λ o. save_with sprintf_b o t q) h

      found :
          (x : Node) (p : ℕ)
          → bkp_session_node_found x (node_name q) ks ≡ some p
          → save_with sprintf_b (some ks) x q ≡ x
      found x p e = save_with-at sprintf_b ks x q (some p) e

      again :
          save_with sprintf_b (some ks) (save_with sprintf_b (some ks) t q) q
          ≡ save_with sprintf_b (some ks) t q
      again = elim (Option-cases (bkp_session_node_found t (node_name q) ks)) [
        | inl e ↦
            let once = save_with-at sprintf_b ks t q none e in
            ap (λ x. save_with sprintf_b (some ks) x q) once
            ∙ found _ (count t) (
                bkp_session_node_found-last t (children sprintf_b q) (node_name q) ks
                  (keys_left-children sprintf_b q) e)
            ∙ sym once
        | inr (p, e) ↦ ap (λ x. save_with sprintf_b (some ks) x q) (found t p e)
      ]

other_order :
    (r : ApplyScheduleDownload)
    → is_nil (
        keys_left
          (insert_all null (apply_schedule_download_keys r))
          (apply_schedule_download_insert_keys r))
      ≡ false
unfolding bkp_session_insert keys_left strcmp
other_order r = rw (value_matches_self r.command_key, value_matches_self r.file_type) refl

-- For an applied download the insertion looks for its keys in another order than it writes them, so
-- a second insertion does not find the first: where the search finds nothing in the tree, two
-- insertions add two nodes.
pub apply_schedule_download_twice :
    (t : Node) (r : ApplyScheduleDownload)
    → bkp_session_node_found t
        (codes "apply_schedule_download")
        (apply_schedule_download_insert_keys r)
      ≡ none
    → let once = bkp_session_insert_apply_schedule_download t r in
      bkp_session_insert_apply_schedule_download once r
      ≡ insert_node once
          (codes "apply_schedule_download")
          (insert_all null (apply_schedule_download_keys r))
unfolding bkp_session_insert_apply_schedule_download
apply_schedule_download_twice t r h =
    let first = insert_unless_found-none t _ _ (apply_schedule_download_keys r) h in
    let again =
      bkp_session_node_found-not_last t (insert_all null (apply_schedule_download_keys r))
        (codes "apply_schedule_download") (apply_schedule_download_insert_keys r) (other_order r)
        h in
    insert_unless_found-none (bkp_session_insert_apply_schedule_download t r) _ _
      (apply_schedule_download_keys r)
      (ap
          (λ x.
            bkp_session_node_found x (codes "apply_schedule_download")
              (apply_schedule_download_insert_keys r))
          first
        ∙ again)
