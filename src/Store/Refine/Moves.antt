-- ===== src/Store/Refine/Moves.antt =====
-- The functions that rename all the events, on the tree and on the list.
use icwmp.Prelude.{◌&&◌, some, List, [], ◌∷◌, if◌then◌else◌, ◌≡◌, refl, ap, ◌∙◌}
use icwmp.Prelude.Text.{Text, codes, strcmp, str_eq}
use icwmp.Event.{idx}
use icwmp.Session.Backup
use icwmp.Session.Backup.{BkpEvent, BkpStatus, queue, send, same_status, bkp_with_id}
use icwmp.Store.Disk.{
  move_inform, bkp_session_move_inform_to_inform_send, bkp_session_move_inform_to_inform_queue,
}
use icwmp.Store.Events.{event_name, event_keys}
use icwmp.Store.Node.{Node, null, element, text, add_last, insert_all, bkp_session_insert}
use icwmp.Store.Refine.Found.{parameters, fields, nodes}

move_inform-add_last :
    (from into parent : Text) (c d : Node)
    → move_inform from into parent (add_last c d)
      ≡ add_last (move_inform from into parent c) (move_inform from into parent d)
unfolding move_inform
move_inform-add_last from into parent null d = refl
move_inform-add_last from into parent (text v n) d =
    ap (text v) (move_inform-add_last from into parent n d)
move_inform-add_last from into parent (element m c n) d =
    ap
      (element (if str_eq m from && str_eq parent (codes "cwmp") then into else m)
        (move_inform from into m c))
      (move_inform-add_last from into parent n d)

-- Nothing is renamed inside the node of an event.
move_inform-parameters :
    (from : BkpStatus) (into parent : Text) (c : Node) (ns : List Text)
    → move_inform (event_name from) into parent c ≡ c
    → move_inform (event_name from) into parent (parameters c ns) ≡ parameters c ns
unfolding move_inform bkp_session_insert strcmp
move_inform-parameters from into parent c [] h = h
move_inform-parameters queue into parent c (n ∷ ns) h =
    move_inform-parameters queue into parent (bkp_session_insert c (codes "parameter") (some n)) ns
      (move_inform-add_last (event_name queue) into parent c _
        ∙ ap (λ x. add_last x (element (codes "parameter") (text n null) null)) h)
move_inform-parameters send into parent c (n ∷ ns) h =
    move_inform-parameters send into parent (bkp_session_insert c (codes "parameter") (some n)) ns (
      move_inform-add_last (event_name send) into parent c _
      ∙ ap (λ x. add_last x (element (codes "parameter") (text n null) null)) h)

move_inform-fields :
    (from : BkpStatus) (into parent : Text) (b : BkpEvent)
    → move_inform (event_name from) into parent (fields b) ≡ fields b
unfolding move_inform bkp_session_insert strcmp
move_inform-fields queue into parent b =
    move_inform-parameters queue into parent
      (insert_all null (event_keys (idx b.index) b.command_key b.id)) b.parameter refl
move_inform-fields send into parent b =
    move_inform-parameters send into parent
      (insert_all null (event_keys (idx b.index) b.command_key b.id)) b.parameter refl

pub move_to_send-nodes :
    (t : List BkpEvent)
    → bkp_session_move_inform_to_inform_send (nodes t)
      ≡ nodes (Backup.bkp_session_move_inform_to_inform_send t)
unfolding bkp_session_move_inform_to_inform_send move_inform
    Backup.bkp_session_move_inform_to_inform_send strcmp
move_to_send-nodes [] = refl
move_to_send-nodes (b ∷ t) = λ i.
    element (name b.status i) (move_inform-fields queue (event_name send) (event_name b.status) b i)
      (move_to_send-nodes t i)
  where
    name :
        (s : BkpStatus)
        → (if str_eq (event_name s) (codes "queue_event") && str_eq (codes "cwmp") (codes "cwmp")
            then event_name send
            else event_name s)
          ≡ event_name send
    name queue = refl
    name send = refl

pub move_to_queue-nodes :
    (t : List BkpEvent)
    → bkp_session_move_inform_to_inform_queue (nodes t)
      ≡ nodes (Backup.bkp_session_move_inform_to_inform_queue t)
unfolding bkp_session_move_inform_to_inform_queue move_inform
    Backup.bkp_session_move_inform_to_inform_queue strcmp
move_to_queue-nodes [] = refl
move_to_queue-nodes (b ∷ t) = λ i.
    element (name b.status i) (move_inform-fields send (event_name queue) (event_name b.status) b i)
      (move_to_queue-nodes t i)
  where
    name :
        (s : BkpStatus)
        → (if str_eq (event_name s) (codes "send_event") && str_eq (codes "cwmp") (codes "cwmp")
            then event_name queue
            else event_name s)
          ≡ event_name queue
    name queue = refl
    name send = refl
