-- ===== src/Tests/QueueTests.antt =====
-- The queue of sessions (cwmp.c, event.c) from an empty state on.
use icwmp.Prelude.{
  ◌*◌, ◌+◌, ◌≤◌, ◌<◌, ℕ, ◌≡◌, ◌⊎◌, refl, true, false, none, some, List, [], ◌∷◌, arith,
  if◌then◌else◌,
}
use icwmp.Prelude.Text.{codes}
use icwmp.Event.{
  periodic, survives_reboot, EventIdx, EventContainer, boot, periodic, connection_request, m_reboot,
  value_change, is_noretry,
}
use icwmp.Event.Params.{DmParameter, add_dm_parameter_tolist}
use icwmp.Event.Params.Order.{AddedParameter, add_dm_parameter_tolist_lem}
use icwmp.Session.{
  Session, Cwmp, empty_session, SessionStatus, session_waiting, session_running, no_end_session,
  cwmp_retry_session, cwmp_ok, EndSession, calloc,
}
use icwmp.Session.Queue.{
  cwmp_save_event_container, cwmp_add_event_container, cwmp_add_queue_session,
  cwmp_add_session_rpc_acs_head,
}
use icwmp.Session.Causes.{cwmp_root_cause_event_boot}
use icwmp.Session.Retry.{
  cwmp_prepare_value_change, cwmp_move_session_to_session_queue,
  event_remove_noretry_event_container, starts_with_inform,
}
use icwmp.Session.Schedule.{
  begin_session, start_session, end_session, must_retry, ExecuteEndSession,
}
use icwmp.Session.Order.{SortedFrom}
use icwmp.Session.Invariant.{Inv, Added, add_event-Added, pending, idle}
use icwmp.Session.Merge.{Requeued, move_to_queue-Requeued}
use icwmp.Session.Steps.{here, next, prepares, begins, boots, Reach-Inv}
use icwmp.Session.Lossless.{count, joined, one, add_event-count, move_to_queue-count}
use icwmp.Session.Memory.{FailedAdd, add_event-fails}
use icwmp.Session.Saved.{node_of, save_event-node}
use icwmp.Session.Periodic.{PeriodicConf, timeout_of, timeout_of_lem}
use icwmp.Session.Noretry.{remove_noretry_lem}
use icwmp.Session.Outcome.{resend}
use icwmp.Session.Counts

abbrev status : SessionStatus
status = record {
  last_start_time = 0;
  last_end_time = 0;
  last_status = session_waiting;
  next_retry = 0;
  success_session = 0;
  failure_session = 0;
}

abbrev pub fresh : Cwmp
fresh = record {
  head_session_queue = [];
  session_send = none;
  head_event_container = none;
  static_id = 0;
  callocs = [];
  retry_count_session = 0;
  cwmp_cr_event = false;
  env_boot = 1;
  env_periodic = 2;
  list_value_change = [];
  session_status = status;
  bkp_tree = [];
  bkp_file = [];
}

fresh-Inv : Inv fresh
fresh-Inv = record { memory = refl; queued = tt; sending = tt; ids = omega arith }

abbrev event : EventIdx → ℕ → EventContainer
event code id = record { code = code; command_key = []; head_dm_parameter = []; id = id }

-- A session that could not be delivered.
abbrev failed : Session
failed = record empty_session {
  head_event_container = event boot 1 ∷ event connection_request 2 ∷ event m_reboot 3 ∷ [];
  error = cwmp_retry_session;
}

failed-SortedFrom : SortedFrom 0 failed.head_event_container
unfolding icwmp.Event.is_single icwmp.Event.idx
failed-SortedFrom = (omega arith, (omega arith, (omega arith, tt)))

Reach-Inv_example :
    Inv (begin_session (cwmp_prepare_value_change (cwmp_root_cause_event_boot fresh).1) 100).1
Reach-Inv_example = Reach-Inv fresh-Inv (
    next (next (next here (boots fresh)) (prepares (cwmp_root_cause_event_boot fresh).1))
      (begins (cwmp_prepare_value_change (cwmp_root_cause_event_boot fresh).1) 100))

move_to_queue-count_example :
    count boot (pending (cwmp_move_session_to_session_queue fresh failed).1)
    ≡ joined boot (count boot (pending fresh)) (count boot failed.head_event_container)
move_to_queue-count_example = move_to_queue-count fresh failed boot fresh-Inv failed-SortedFrom

move_to_queue-Requeued_example : Requeued fresh (cwmp_move_session_to_session_queue fresh failed)
move_to_queue-Requeued_example = move_to_queue-Requeued fresh failed fresh-Inv failed-SortedFrom

add_event-Added_example :
    Added fresh boot (codes "k") (cwmp_add_event_container fresh boot (codes "k"))
add_event-Added_example = add_event-Added fresh boot (codes "k") fresh-Inv

add_event-count_example :
    count boot (pending (cwmp_add_event_container fresh boot []).1)
    ≡ joined boot (count boot (pending fresh)) (one boot boot)
add_event-count_example = add_event-count fresh boot boot [] fresh-Inv

-- A failure, and then a session without an error.
abbrev delivered : Session
delivered = record failed { error = cwmp_ok }

failed_retried : must_retry fresh failed ≡ true
unfolding must_retry
failed_retried = refl

resend_example :
    let d = (start_session (end_session (idle fresh) failed 50 7) 60).1 in
    (t : Session) × (d.session_send ≡ some t)
    × (t.head_event_container ≡ failed.head_event_container)
    × (starts_with_inform t.head_rpc_acs ≡ true)
    × (d.session_status.last_status ≡ session_running)
resend_example = resend fresh failed 50 7 60 refl failed_retried

abbrev callbacks : List ExecuteEndSession
callbacks = record { function = 1; action = 0; data_ = 0 } ∷ []

abbrev sending : Cwmp
sending = record fresh { session_send = some failed }

abbrev reboot_asked : EndSession
reboot_asked = record no_end_session { reboot = true }

remove_noretry_lem_example :
    count connection_request
      (event_remove_noretry_event_container some fresh failed).1.head_event_container
    ≡ (if is_noretry connection_request
        then 0
        else count connection_request failed.head_event_container)
remove_noretry_lem_example = remove_noretry_lem some fresh failed connection_request

abbrev scarce : Cwmp
scarce = record fresh { callocs = true ∷ false ∷ [] }

scarce_fails : (cwmp_add_event_container scarce boot []).0 ≡ none
unfolding cwmp_add_event_container cwmp_add_queue_session calloc cwmp_add_session_rpc_acs_head
scarce_fails = refl

add_event-fails_example : FailedAdd scarce (cwmp_add_event_container scarce boot []).1
add_event-fails_example = add_event-fails scarce boot [] scarce_fails

abbrev parameters : List DmParameter
parameters = record { name = codes "b"; data_ = some (codes "1"); type = none } ∷ []

add_dm_parameter_tolist_lem_example :
    AddedParameter parameters
      (codes "b")
      (some (codes "2"))
      (add_dm_parameter_tolist parameters (codes "b") (some (codes "2")) none)
add_dm_parameter_tolist_lem_example =
    add_dm_parameter_tolist_lem parameters (codes "b") (some (codes "2")) none (tt, tt)

abbrev every_five_minutes : PeriodicConf
every_five_minutes = record { interval = 300; enable = true; time = 1000 }

timeout_of_lem_example :
    let r = timeout_of every_five_minutes 1450 in
    (1450 < r) × (r ≤ 1750) × ((k : ℕ) × ((r ≡ 1000 + k * 300) ⊎ (r + k * 300 ≡ 1000)))
timeout_of_lem_example = timeout_of_lem every_five_minutes 1450 (omega arith) (omega arith)

periodic_survives : survives_reboot periodic ≡ true
unfolding survives_reboot
periodic_survives = refl

abbrev periodic_event : EventContainer
periodic_event = record (event periodic 4) { head_dm_parameter = parameters }

save_event-node_example :
    let d = cwmp_save_event_container fresh periodic_event in
    (d.bkp_tree ≡ node_of periodic_event ∷ []) × (d.bkp_file ≡ node_of periodic_event ∷ [])
save_event-node_example = save_event-node fresh periodic_event periodic_survives tt
