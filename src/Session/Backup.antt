-- ===== src/Session/Backup.antt =====
-- The events of the backup file (backupSession.c): the nodes `queue_event` and `send_event` of the
-- XML tree, in document order.

use icwmp.Prelude.{
  ℕ, suc, Bool, true, false, Option, none, some, List, [], ◌∷◌, ◌++◌, map, ◌==◌, if◌then◌else◌,
  modify, remove_at, length,
}
use icwmp.Prelude.Text.{Text}
use icwmp.Event.{EventIdx}
use mathlib.Core.Option

pub data BkpStatus : Type 0 where
  queue send : BkpStatus

abbrev pub same_status : BkpStatus → BkpStatus → Bool
same_status queue queue = true
same_status send send = true
same_status _ _ = false

pub record BkpEvent : Type 0 where
  pub status : BkpStatus
  pub index : EventIdx
  pub id : ℕ
  pub command_key : Text
  pub parameter : List Text

-- The walk over the siblings that follow: their names are not looked at.
unfoldable pub bkp_with_id : List BkpEvent → ℕ → Option ℕ
bkp_with_id [] id = none
bkp_with_id (b ∷ bs) id =
    let rest = bkp_with_id bs id in if b.id == id then some 0 else Option.map suc rest

-- The node with this id, from the first node with this name on.
unfoldable pub bkp_session_node_found : List BkpEvent → BkpStatus → ℕ → Option ℕ
bkp_session_node_found [] st id = none
bkp_session_node_found (b ∷ bs) st id =
    let rest = bkp_session_node_found bs st id in
    if same_status b.status st then bkp_with_id (b ∷ bs) id else Option.map suc rest

-- The tree, and the position of the event's node in it.
unfoldable pub bkp_session_insert_event :
    List BkpEvent → EventIdx → Text → ℕ → BkpStatus → List BkpEvent × ℕ
bkp_session_insert_event t index key id st = elim (bkp_session_node_found t st id) [
  | some p ↦ (t, p)
  | none ↦ (
    t ++ record { status = st; index = index; id = id; command_key = key; parameter = [] } ∷ [],
    length t,
  )
]

unfoldable pub bkp_session_insert_parameter : List BkpEvent → ℕ → Text → List BkpEvent
bkp_session_insert_parameter t p name =
    modify t p (λ b. record b { parameter = b.parameter ++ name ∷ [] })

unfoldable pub bkp_session_delete_event : List BkpEvent → ℕ → BkpStatus → List BkpEvent
bkp_session_delete_event t id st = elim (bkp_session_node_found t st id) [
  | some p ↦ remove_at t p
  | none ↦ t
]

unfoldable pub bkp_session_move_inform_to_inform_send : List BkpEvent → List BkpEvent
bkp_session_move_inform_to_inform_send = map {A = BkpEvent} (λ b. record b { status = send })

unfoldable pub bkp_session_move_inform_to_inform_queue : List BkpEvent → List BkpEvent
bkp_session_move_inform_to_inform_queue = map {A = BkpEvent} (λ b. record b { status = queue })
