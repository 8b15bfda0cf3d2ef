-- ===== src/Rpc/Inform.antt =====
-- ScheduleInform (xml.c): the handler and cwmp_scheduleInform_remove_all.
use icwmp.Prelude.{ℕ, ◌-◌, ◌^◌, ◌%◌, Option, none, some, List, [], ◌∷◌, if◌then◌else◌, ◌==◌}
use icwmp.Prelude.Decimal.{ℤ, pos, negsuc, gt, plus, atoi}
use icwmp.Prelude.Text.{Text, codes, str_eq}
use icwmp.Rpc.{
  State, bkp_session_save, invalid_arguments, resources_exceeded, Answer, response, fault_message,
  texts,
}
use icwmp.Rpc.Remove.{command_key_of}
use icwmp.Rpc.Transfer.{add_before}
use icwmp.Store.Loading.{inform_time}
use icwmp.Store.Node.{Node}
use icwmp.Store.Requests.{ScheduleInform}
use icwmp.Store.Writers.{bkp_session_insert_schedule_inform, bkp_session_delete_schedule_inform}

abbrev pub max_schedule_inform_queue : ℤ
max_schedule_inform_queue = pos 10

-- The conversion of an int to an unsigned int of 32 bits.
unfoldable pub unsigned_int : ℤ → ℕ
unsigned_int (pos n) = n % 2 ^ 32
unsigned_int (negsuc n) = 2 ^ 32 - 1 - n % 2 ^ 32

-- The last text of an element `DelaySeconds`, and 0 without one.
unfoldable pub delay_seconds_of : List (Text × Text) → ℕ
unfolding unsigned_int
delay_seconds_of ts = last ts 0
  where
    last : List (Text × Text) → ℕ → ℕ
    last [] n = n
    last ((m, v) ∷ ts) n =
        if str_eq m (codes "DelaySeconds") then last ts (unsigned_int (atoi v)) else last ts n

unfoldable pub queue_schedule_inform : State → ScheduleInform → State
unfolding add_before bkp_session_insert_schedule_inform bkp_session_save
queue_schedule_inform s r = bkp_session_save (record s {
  queues = record (s.queues) {
    list_schedule_inform = add_before inform_time r s.queues.list_schedule_inform;
  };
  count_schedule_inform_queue = plus s.count_schedule_inform_queue (pos 1);
  bkp_tree = bkp_session_insert_schedule_inform s.bkp_tree r;
})

-- The result is none where strdup reads a NULL pointer: no CommandKey was given.
unfoldable pub cwmp_handle_rpc_cpe_schedule_inform : State → ℤ → Node → Option (Answer × State)
unfolding texts delay_seconds_of command_key_of queue_schedule_inform
cwmp_handle_rpc_cpe_schedule_inform s now body =
    let ts = texts (codes "Body") body in
    let delay = delay_seconds_of ts in
    if delay == 0
    then some (fault_message invalid_arguments, s)
    else if gt max_schedule_inform_queue s.count_schedule_inform_queue
    then elim (command_key_of ts) [
      | none ↦ none
      | some k ↦ some (
        response (codes "ScheduleInformResponse"),
        queue_schedule_inform s
            (record { scheduled_time = plus now (pos delay); command_key = some k }),
      )
    ]
    else some (fault_message resources_exceeded, s)

-- The count stays.
unfoldable pub cwmp_schedule_inform_remove_all : State → State
unfolding bkp_session_delete_schedule_inform bkp_session_save
cwmp_schedule_inform_remove_all s = bkp_session_save (record s {
  queues = record (s.queues) { list_schedule_inform = [] };
  bkp_tree = delete_all s.queues.list_schedule_inform s.bkp_tree;
})
  where
    delete_all : List ScheduleInform → Node → Node
    delete_all [] tree = tree
    delete_all (r ∷ rs) tree = elim r.command_key [
      | none ↦ delete_all rs tree
      | some k ↦ delete_all rs (bkp_session_delete_schedule_inform tree r)
    ]
