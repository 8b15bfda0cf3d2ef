-- ===== src/Store/LoadEvent.antt =====
-- load_queue_event of backupSession.c: an event that was saved is put into the queue again.
use icwmp.Prelude.{ℕ, Option, none, some, if◌then◌else◌, get_elem?, modify}
use icwmp.Prelude.Decimal.{ℤ, pos, negsuc}
use icwmp.Prelude.Text.{Text, codes, or_empty, str_eq}
use icwmp.Event.{EventIdx, EventContainer, all_events, survives_reboot}
use icwmp.Event.Params.{add_dm_parameter_tolist}
use icwmp.Session.{Cwmp}
use icwmp.Session.Queue.{cwmp_add_event_container, on_head_session}
use icwmp.Store.Node.{Node}
use icwmp.Store.Readers.{walk, set_text, set_number}

-- The variables of the loop. `command_key` is freed, and NULL, after each event.
pub record EventLoader : Type 0 where
  pub idx : ℤ
  pub id : ℤ
  pub event_container_save : Option ℕ
  pub cwmp : Cwmp

-- EVENT_CONST[idx]; for an index outside the table, which C reads all the same, there is no event.
abbrev event_of : ℤ → Option EventIdx
event_of (pos n) = get_elem? all_events n
event_of (negsuc n) = none

-- An id is at least 0 in the model; a negative one, which no node that was written holds, becomes 0.
abbrev id_of : ℤ → ℕ
id_of (pos n) = n
id_of (negsuc n) = 0

-- The container at this place of the head session.
unfoldable pub on_container : Cwmp → ℕ → (EventContainer → EventContainer) → Cwmp
unfolding on_head_session
on_container c n f =
    on_head_session c (λ s. record s { head_event_container = modify s.head_event_container n f })

unfoldable pub add_saved_event : EventLoader → Option Text → EventLoader
unfolding cwmp_add_event_container survives_reboot on_container
add_saved_event l key = elim (event_of l.idx) [
  | none ↦ l
  | some e ↦
      let (p, c) = cwmp_add_event_container l.cwmp e (or_empty key) in
      if survives_reboot e
      then elim p [
        | none ↦ record l { cwmp = c; event_container_save = none }
        | some n ↦ record l {
          cwmp = on_container c n (λ x. record x { id = id_of l.id });
          event_container_save = some n;
        }
      ]
      else l
]

abbrev or_else {ℓ} : {A : Type ℓ} → A → Option A → A
or_else a none = a
or_else a (some b) = b

-- Without new data add_dm_parameter_tolist always has a result.
unfoldable pub add_saved_parameter : EventLoader → Option Text → EventLoader
unfolding on_container add_dm_parameter_tolist
add_saved_parameter l none = l
add_saved_parameter l (some name) = elim l.event_container_save [
  | none ↦ l
  | some n ↦ record l {
    cwmp = on_container l.cwmp n (λ x. record x {
      head_dm_parameter =
          or_else x.head_dm_parameter (add_dm_parameter_tolist x.head_dm_parameter name none none);
    });
  }
]

abbrev queue_event_field : EventLoader → Text → Node → EventLoader
queue_event_field l m c =
    if str_eq m (codes "index")
    then record l { idx = set_number c l.idx }
    else if str_eq m (codes "id")
    then record l { id = set_number c l.id }
    else if str_eq m (codes "command_key")
    then add_saved_event l (set_text c none)
    else if str_eq m (codes "parameter")
    then add_saved_parameter l (set_text c none)
    else l

unfoldable pub load_queue_event : Cwmp → Node → Cwmp
unfolding add_saved_event add_saved_parameter
load_queue_event c children =
    (walk queue_event_field
      (record { idx = negsuc 0; id = negsuc 0; event_container_save = none; cwmp = c })
      children).cwmp
