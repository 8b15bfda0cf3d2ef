-- ===== src/Store/Refine/Steps.antt =====
-- The functions that insert and delete an event, on the tree and on the list.
use icwmp.Prelude.{
  ℕ, zero, suc, Option, none, some, List, [], ◌∷◌, ◌++◌, ◌≡◌, refl, sym, ap, ◌∙◌, remove_at, length,
}
use icwmp.Prelude.Text.{Text, codes}
use icwmp.Event.{EventIdx, idx}
use icwmp.Session.Backup
use icwmp.Session.Backup.{BkpEvent, BkpStatus, queue, send, same_status, bkp_with_id}
use icwmp.Store.Events.{
  event_name, event_keys, bkp_session_insert_event, bkp_session_delete_event,
  bkp_session_insert_parameter,
}
use icwmp.Store.Node.{
  Node, null, element, key, insert_all, insert_node, bkp_session_insert, delete_found, delete_at,
}
use icwmp.Store.Search.{count}
use icwmp.Store.Refine.Found.{parameters, fields, nodes, node_found-nodes}

count-nodes : (t : List BkpEvent) → count (nodes t) ≡ length t
count-nodes [] = refl
count-nodes (b ∷ bs) = ap suc (count-nodes bs)

nodes-concat :
    (t : List BkpEvent) (b : BkpEvent)
    → nodes (t ++ b ∷ []) ≡ insert_node (nodes t) (event_name b.status) (fields b)
nodes-concat [] b = refl
nodes-concat (x ∷ t) b = ap (element (event_name x.status) (fields x)) (nodes-concat t b)

delete_at-nodes : (t : List BkpEvent) (p : ℕ) → delete_at (nodes t) p ≡ nodes (remove_at t p)
delete_at-nodes [] p = refl
delete_at-nodes (b ∷ t) zero = refl
delete_at-nodes (b ∷ t) (suc p) =
    ap (element (event_name b.status) (fields b)) (delete_at-nodes t p)

pub insert_event-nodes :
    (t : List BkpEvent) (e : EventIdx) (key : Text) (id : ℕ) (st : BkpStatus)
    → let r = Backup.bkp_session_insert_event t e key id st in
      bkp_session_insert_event (nodes t) (idx e) key id st ≡ (nodes r.0, r.1)
unfolding bkp_session_insert_event Backup.bkp_session_insert_event
insert_event-nodes t e key id st =
    ap
      (λ (o : Option ℕ). elim o [
        | some p ↦ (nodes t, p)
        | none ↦ (
          insert_node (nodes t) (event_name st) (insert_all null (event_keys (idx e) key id)),
          count (nodes t),
        )
      ])
      (node_found-nodes t st id)
    ∙ by_place (Backup.bkp_session_node_found t st id)
  where
    new : BkpEvent
    new = record { status = st; index = e; id = id; command_key = key; parameter = [] }

    by_place :
        (o : Option ℕ)
        → let r : List BkpEvent × ℕ = elim o [
          | some p ↦ (t, p)
          | none ↦ (t ++ new ∷ [], length t)
        ] in
          ◌≡◌ {A = Node × ℕ}
            (elim o [
              | some p ↦ (nodes t, p)
              | none ↦ (
                insert_node (nodes t) (event_name st) (insert_all null (event_keys (idx e) key id)),
                count (nodes t),
              )
            ])
            (nodes r.0, r.1)
    by_place (some p) = refl
    by_place none = λ i. (sym (nodes-concat t new) i, count-nodes t i)

pub delete_event-nodes :
    (t : List BkpEvent) (id : ℕ) (st : BkpStatus)
    → bkp_session_delete_event (nodes t) id st ≡ nodes (Backup.bkp_session_delete_event t id st)
unfolding bkp_session_delete_event Backup.bkp_session_delete_event delete_found
delete_event-nodes t id st =
    ap (λ (o : Option ℕ). elim o [ some p ↦ delete_at (nodes t) p | none ↦ nodes t ])
      (node_found-nodes t st id)
    ∙ by_place (Backup.bkp_session_node_found t st id)
  where
    by_place :
        (o : Option ℕ)
        → ◌≡◌ {A = Node}
            (elim o [ some p ↦ delete_at (nodes t) p | none ↦ nodes t ])
            (nodes (elim o [ some p ↦ remove_at t p | none ↦ t ]))
    by_place (some p) = delete_at-nodes t p
    by_place none = refl

parameters-concat :
    (c : Node) (ns : List Text) (n : Text)
    → bkp_session_insert (parameters c ns) (codes "parameter") (some n)
      ≡ parameters c (ns ++ n ∷ [])
unfolding bkp_session_insert
parameters-concat c [] n = refl
parameters-concat c (m ∷ ns) n =
    parameters-concat (bkp_session_insert c (codes "parameter") (some m)) ns n

pub insert_parameter-nodes :
    (t : List BkpEvent) (p : ℕ) (name : Text)
    → bkp_session_insert_parameter (nodes t) p name
      ≡ nodes (Backup.bkp_session_insert_parameter t p name)
unfolding bkp_session_insert_parameter Backup.bkp_session_insert_parameter
insert_parameter-nodes [] p name = refl
insert_parameter-nodes (b ∷ t) zero name =
    ap (λ c. element (event_name b.status) c (nodes t)) (parameters-concat _ b.parameter name)
insert_parameter-nodes (b ∷ t) (suc p) name =
    ap (element (event_name b.status) (fields b)) (insert_parameter-nodes t p name)
