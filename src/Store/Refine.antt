-- ===== src/Store/Refine.antt =====
-- The list of events of Session.Backup, which the sessions use, stands for the nodes of the tree: each
-- of its functions is the one of the tree (backupSession.c), seen through `nodes`.
pub mod Found
pub mod Steps
pub mod Moves
use icwmp.Prelude.{
  arith, ◌&&◌, ℕ, zero, suc, Bool, true, false, Option, none, some, List, [], ◌∷◌, ◌++◌, map, ◌==◌,
  ==_iff, if◌then◌else◌, if_elim, ◌≡◌, refl, sym, ap, ◌∙◌, Bool-cases, inl, inr, modify, remove_at,
  length,
}
use icwmp.Prelude.Decimal.{ℤ, pos, negsuc, sprintf_d, atoi, atoi-sprintf_d}
use icwmp.Prelude.Text.{Text, codes, strcmp, str_eq, str_eq_self, str_eq_sound}
use icwmp.Event.{EventIdx, idx}
use icwmp.Session.Backup
use icwmp.Session.Backup.{BkpEvent, BkpStatus, queue, send, same_status, bkp_with_id}
use icwmp.Store.Disk.{
  move_inform, bkp_session_move_inform_to_inform_send, bkp_session_move_inform_to_inform_queue,
}
use icwmp.Store.Events.{
  event_name, id_keys, event_keys, bkp_session_insert_event, bkp_session_delete_event,
  bkp_session_insert_parameter,
}
use icwmp.Store.Node.{
  Node, null, element, text, add_last, key, keys_left, is_nil, insert_all, insert_node,
  bkp_session_insert, node_with_keys, bkp_session_node_found, delete_found, delete_at,
  SearchKeywords,
}
use icwmp.Store.Written.{keys_left-behind}
use icwmp.Store.Search.{count, keys_left-add_last}
use mathlib.Core.Option
use icwmp.Store.Refine.Found.{nodes}
use icwmp.Store.Refine.Steps.{insert_event-nodes, delete_event-nodes, insert_parameter-nodes}
use icwmp.Store.Refine.Moves.{move_to_send-nodes, move_to_queue-nodes}

-- The operations on the events of the file.
pub data EventOp : Type 0 where
  insert_event : EventIdx → Text → ℕ → BkpStatus → EventOp
  delete_event : ℕ → BkpStatus → EventOp
  insert_parameter : ℕ → Text → EventOp
  move_to_send move_to_queue : EventOp

unfoldable pub on_list : List BkpEvent → EventOp → List BkpEvent
on_list t (insert_event e key id st) = (Backup.bkp_session_insert_event t e key id st).0
on_list t (delete_event id st) = Backup.bkp_session_delete_event t id st
on_list t (insert_parameter p name) = Backup.bkp_session_insert_parameter t p name
on_list t move_to_send = Backup.bkp_session_move_inform_to_inform_send t
on_list t move_to_queue = Backup.bkp_session_move_inform_to_inform_queue t

unfoldable pub on_tree : Node → EventOp → Node
on_tree t (insert_event e key id st) = (bkp_session_insert_event t (idx e) key id st).0
on_tree t (delete_event id st) = bkp_session_delete_event t id st
on_tree t (insert_parameter p name) = bkp_session_insert_parameter t p name
on_tree t move_to_send = bkp_session_move_inform_to_inform_send t
on_tree t move_to_queue = bkp_session_move_inform_to_inform_queue t

pub on_tree-nodes : (t : List BkpEvent) (o : EventOp) → on_tree (nodes t) o ≡ nodes (on_list t o)
unfolding on_tree on_list
on_tree-nodes t (insert_event e key id st) = ap (λ r. r.0) (insert_event-nodes t e key id st)
on_tree-nodes t (delete_event id st) = delete_event-nodes t id st
on_tree-nodes t (insert_parameter p name) = insert_parameter-nodes t p name
on_tree-nodes t move_to_send = move_to_send-nodes t
on_tree-nodes t move_to_queue = move_to_queue-nodes t

abbrev pub run_ops {ℓ} : {A : Type ℓ} → (A → EventOp → A) → A → List EventOp → A
run_ops f a [] = a
run_ops f a (o ∷ os) = run_ops f (f a o) os

-- Any run of the operations on saved events, from a tree that holds only events, gives on the nodes
-- of the XML tree what it gives on the list of events: insertion and deletion of an event,
-- insertion of a parameter, and the renaming of all events to be sent or to be queued.
pub tree_refines-list :
    (t : List BkpEvent) (os : List EventOp)
    → run_ops on_tree (nodes t) os ≡ nodes (run_ops on_list t os)
tree_refines-list t [] = refl
tree_refines-list t (o ∷ os) =
    ap (λ x. run_ops on_tree x os) (on_tree-nodes t o) ∙ tree_refines-list (on_list t o) os
