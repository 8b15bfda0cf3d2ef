-- ===== src/Session/Retry.antt =====
-- A session moves between the queue and `session_send`, and a failed one goes back (cwmp.c,
-- event_remove_* of event.c).
use icwmp.Prelude.{
  ℕ, ◌+◌, Bool, false, ◌&&◌, ◌||◌, Option, none, some, List, [], ◌∷◌, ◌++◌, length, modify, ◌==◌,
  if◌then◌else◌,
}
use icwmp.Event.{EventIdx, EventContainer, is_noretry, starts_with_six, value_change}
use icwmp.Event.Params.{DmParameter}
use icwmp.Session.{
  Rpc, Session, live, Cwmp, CwmpRet, cwmp_ok, cwmp_mem_err, cwmp_mutex_err, rpc_acs_inform,
  rpc_acs_get_rpc_methods,
}
use icwmp.Session.Backup.{
  BkpStatus, BkpEvent, bkp_session_delete_event, bkp_session_move_inform_to_inform_send,
  bkp_session_move_inform_to_inform_queue,
}
use icwmp.Session.Queue.{
  cwmp_add_session_rpc_acs_head, cwmp_add_event_container, on_head_session, save_at,
  bkp_session_save,
}

-- Takes the first session of the queue. The second part is NULL's place: nothing to take.
unfoldable pub cwmp_move_session_to_session_send : Cwmp → CwmpRet × Cwmp
unfolding bkp_session_save
cwmp_move_session_to_session_send c = elim c.session_send [
  | some _ ↦ (cwmp_mutex_err, c)
  | none ↦ elim c.head_session_queue [
    | live s ∷ rest ↦ (
      cwmp_ok,
      bkp_session_save (record c {
        head_session_queue = rest;
        session_send = some s;
        head_event_container = none;
        bkp_tree = bkp_session_move_inform_to_inform_send c.bkp_tree;
      }),
    )
    | _ ↦ (cwmp_ok, c)
  ]
]

-- list_splice_init: the moved parameters come first.
unfoldable pub splice_parameters : Cwmp → ℕ → List DmParameter → Cwmp
unfolding on_head_session
splice_parameters c n ps = on_head_session c (λ s. record s {
  head_event_container =
      modify s.head_event_container n
        (λ e. record e { head_dm_parameter = ps ++ e.head_dm_parameter });
})

unfoldable pub cwmp_prepare_value_change : Cwmp → Cwmp
unfolding splice_parameters
cwmp_prepare_value_change c = elim c.list_value_change [
  | [] ↦ c
  | p ∷ ps ↦
      let (e, c') = cwmp_add_event_container c value_change [] in
      elim e [
        | none ↦ c'
        | some n ↦ save_at (record (splice_parameters c' n (p ∷ ps)) { list_value_change = [] }) n
      ]
]

-- The events of the failed session join the session of the queue, one after the other.
unfoldable pub merge_events : List EventContainer → Cwmp → CwmpRet × Cwmp
unfolding splice_parameters
merge_events [] c = (cwmp_ok, c)
merge_events (old ∷ olds) c =
    let (e, c') = cwmp_add_event_container c old.code old.command_key in
    elim e [
      | none ↦ (cwmp_mem_err, c')
      | some n ↦ merge_events olds (save_at (splice_parameters c' n old.head_dm_parameter) n)
    ]

-- Inform and GetRPCMethods are not queued twice.
unfoldable pub is_dup : Rpc → List Rpc → Bool
is_dup r [] = false
is_dup r (q ∷ qs) =
    (q.type == r.type && (r.type == rpc_acs_inform || r.type == rpc_acs_get_rpc_methods))
    || is_dup r qs

unfoldable pub merge_rpcs : List Rpc → List Rpc → List Rpc
unfolding is_dup
merge_rpcs queued [] = queued
merge_rpcs queued (r ∷ rs) = merge_rpcs (if is_dup r queued then queued else queued ++ r ∷ []) rs

-- `head_rpc_acs` begins with an Inform.
unfoldable pub starts_with_inform : List Rpc → Bool
starts_with_inform [] = false
starts_with_inform (r ∷ rs) = r.type == rpc_acs_inform

-- The branch in which the queue is empty: the session itself is queued again.
unfoldable pub requeue : Cwmp → Session → CwmpRet × Cwmp
unfolding cwmp_add_session_rpc_acs_head starts_with_inform bkp_session_save
requeue c session =
    let s = record session { hold_request = false; digest_auth = false } in
    let queued = λ (t : Session) (m : List Bool). record c {
      head_session_queue = c.head_session_queue ++ live t ∷ [];
      head_event_container = some (length c.head_session_queue);
      callocs = m;
    } in
    let finish = λ (t : Session) (m : List Bool).
      let c' = queued (record t { head_rpc_cpe = [] }) m in
      bkp_session_save
        (record c' { bkp_tree = bkp_session_move_inform_to_inform_queue c'.bkp_tree }) in
    if starts_with_inform s.head_rpc_acs
    then (cwmp_ok, finish s c.callocs)
    else let (rpc, m) = cwmp_add_session_rpc_acs_head c.callocs s rpc_acs_inform in
      elim rpc [ none ↦ (cwmp_mem_err, queued s m) | some t ↦ (cwmp_ok, finish t m) ]

-- The branch in which another session is queued: the failed one is merged into it and destroyed.
unfoldable pub merge_session : Cwmp → Session → CwmpRet × Cwmp
unfolding on_head_session merge_events merge_rpcs
merge_session c session =
    let (e, c') = merge_events session.head_event_container c in
    elim e [
      | cwmp_ok ↦ (
        cwmp_ok,
        on_head_session c'
            (λ q. record q { head_rpc_acs = merge_rpcs q.head_rpc_acs session.head_rpc_acs }),
      )
      | other ↦ (other, c')
    ]

unfoldable pub cwmp_move_session_to_session_queue : Cwmp → Session → CwmpRet × Cwmp
unfolding requeue merge_session
cwmp_move_session_to_session_queue c session =
    let c' = record c { retry_count_session = c.retry_count_session + 1; session_send = none } in
    elim c.head_session_queue [ [] ↦ requeue c' session | _ ∷ _ ↦ merge_session c' session ]

-- event_remove_all_event_container deletes each event of the session from the backup.
unfoldable pub delete_events : List BkpEvent → List EventContainer → BkpStatus → List BkpEvent
delete_events t [] st = t
delete_events t (e ∷ es) st = delete_events (bkp_session_delete_event t e.id st) es st

unfoldable pub event_remove_all_event_container : Cwmp → Session → BkpStatus → Cwmp × Session
unfolding delete_events bkp_session_save
event_remove_all_event_container c s st = (
  bkp_session_save (record c { bkp_tree = delete_events c.bkp_tree s.head_event_container st }),
  record s { head_event_container = [] },
)

-- The second test reads the code of the container after free; `stale` is what that read gives, none for a number that
-- is no code.
abbrev pub reads_six : Option EventIdx → Bool
reads_six none = false
reads_six (some code) = starts_with_six code

unfoldable pub remove_noretry :
    (EventIdx → Option EventIdx) → List EventContainer → Bool → List EventContainer × Bool
remove_noretry stale [] cr = ([], cr)
remove_noretry stale (e ∷ es) cr =
    let code = if is_noretry e.code then stale e.code else some e.code in
    let (kept, cr') = remove_noretry stale es (cr || reads_six code) in
    if is_noretry e.code then (kept, cr') else (e ∷ kept, cr')

unfoldable pub event_remove_noretry_event_container :
    (EventIdx → Option EventIdx) → Cwmp → Session → Cwmp × Session
unfolding remove_noretry
event_remove_noretry_event_container stale c s =
    let (kept, cr) = remove_noretry stale s.head_event_container c.cwmp_cr_event in
    (record c { cwmp_cr_event = cr }, record s { head_event_container = kept })
