-- ===== src/Session/Causes.antt =====
-- The calls that put an event into the queue (event.c, and http_success_cr of http.c). Each takes
-- mutex_session_queue, so it is one step; the signal to the scheduler is left out.
use icwmp.Prelude.{ℕ, Option, none, some, List, [], ◌∷◌, ◌==◌, if◌then◌else◌}
use icwmp.Prelude.Text.{or_empty, Text, str_eq}
use icwmp.Event.{
  EventIdx, boot, periodic, value_change, connection_request, transfer_complete,
  diagnostics_complete, du_state_change_complete, m_download, m_schedule_download, m_upload,
  m_change_du_state,
}
use icwmp.Session.{
  Cwmp, CwmpRet, cwmp_ok, cwmp_mem_err, head_session, rpc_acs_get_rpc_methods,
  rpc_acs_transfer_complete, rpc_acs_du_state_change_complete, Rpc,
}
use icwmp.Session.Queue.{
  cwmp_add_session_rpc_acs, cwmp_add_event_container, on_head_session, save_at,
}

-- cwmp_add_event_container, then cwmp_save_event_container.
unfoldable pub add_and_save : Cwmp → EventIdx → Text → CwmpRet × Cwmp
add_and_save c code key =
    let (p, c') = cwmp_add_event_container c code key in
    elim p [ none ↦ (cwmp_mem_err, c') | some n ↦ (cwmp_ok, save_at c' n) ]

abbrev pub set_last_extra_data : List Rpc → ℕ → List Rpc
set_last_extra_data [] p = []
set_last_extra_data (r ∷ []) p = record r { extra_data = some p } ∷ []
set_last_extra_data (r ∷ q ∷ rs) p = r ∷ set_last_extra_data (q ∷ rs) p

-- Adds an RPC to the head session, and stores a pointer in it where one is given.
unfoldable pub add_rpc : Cwmp → ℕ → Option ℕ → CwmpRet × Cwmp
unfolding head_session cwmp_add_session_rpc_acs on_head_session
add_rpc c type extra = elim (head_session c) [
  | none ↦ (cwmp_mem_err, c)
  | some s ↦
      let (rpc, m) = cwmp_add_session_rpc_acs c.callocs s type in
      elim rpc [
        | none ↦ (cwmp_mem_err, record c { callocs = m })
        | some s' ↦ (
          cwmp_ok,
          on_head_session (record c { callocs = m })
              (λ _. elim extra [
                | none ↦ s'
                | some p ↦ record s' { head_rpc_acs = set_last_extra_data s'.head_rpc_acs p }
              ]),
        )
      ]
]

abbrev pub cwmp_start_boot : ℕ
cwmp_start_boot = 1

abbrev pub cwmp_start_periodic : ℕ
cwmp_start_periodic = 2

unfoldable pub cwmp_root_cause_event_boot : Cwmp → CwmpRet × Cwmp
unfolding add_and_save
cwmp_root_cause_event_boot c =
    if c.env_boot == cwmp_start_boot
    then add_and_save (record c { env_boot = 0 }) boot []
    else (cwmp_ok, c)

unfoldable pub cwmp_root_cause_event_ipdiagnostic : Cwmp → Cwmp
unfolding add_and_save
cwmp_root_cause_event_ipdiagnostic c = (add_and_save c diagnostics_complete []).1

-- cwmp_root_cause_getRPCMethod; the `grm` branch of cwmp_handle_inform (ubus.c) is its second part.
unfoldable pub get_rpc_methods : Cwmp → CwmpRet × Cwmp
unfolding add_and_save add_rpc
get_rpc_methods c =
    let (e, c') = add_and_save c periodic [] in
    elim e [ cwmp_ok ↦ add_rpc c' rpc_acs_get_rpc_methods none | other ↦ (other, c') ]

unfoldable pub cwmp_root_cause_get_rpc_method : Cwmp → CwmpRet × Cwmp
unfolding get_rpc_methods
cwmp_root_cause_get_rpc_method c =
    if c.env_periodic == cwmp_start_periodic
    then get_rpc_methods (record c { env_periodic = 0 })
    else (cwmp_ok, c)

pub data LoadType : Type 0 where
  type_download type_schedule_download type_upload : LoadType

abbrev load_event : LoadType → EventIdx
load_event type_download = m_download
load_event type_schedule_download = m_schedule_download
load_event type_upload = m_upload

-- Two events and the RPC that reports `p`; nothing is saved here.
unfoldable pub two_events_and_rpc : Cwmp → EventIdx → EventIdx → Text → ℕ → ℕ → CwmpRet × Cwmp
unfolding add_rpc
two_events_and_rpc c first second key rpc p =
    let (e, c1) = cwmp_add_event_container c first [] in
    elim e [
      | none ↦ (cwmp_mem_err, c1)
      | some _ ↦
          let (e', c2) = cwmp_add_event_container c1 second key in
          elim e' [ none ↦ (cwmp_mem_err, c2) | some _ ↦ add_rpc c2 rpc (some p) ]
    ]

unfoldable pub cwmp_root_cause_transfer_complete :
    Cwmp → LoadType → Option Text → ℕ → CwmpRet × Cwmp
unfolding two_events_and_rpc
cwmp_root_cause_transfer_complete c type key p =
    two_events_and_rpc c transfer_complete (load_event type) (or_empty key)
      rpc_acs_transfer_complete p

unfoldable pub cwmp_root_cause_dustatechange_complete : Cwmp → Option Text → ℕ → CwmpRet × Cwmp
unfolding two_events_and_rpc
cwmp_root_cause_dustatechange_complete c key p =
    two_events_and_rpc c du_state_change_complete m_change_du_state (or_empty key)
      rpc_acs_du_state_change_complete p

unfoldable pub http_success_cr : Cwmp → Cwmp
http_success_cr c = (cwmp_add_event_container c connection_request []).1

-- The software versions: that of the transfer, and the device's own.
unfoldable pub sotfware_version_value_change : Cwmp → Option Text → Option Text → Cwmp
sotfware_version_value_change c none current = c
sotfware_version_value_change c (some []) current = c
sotfware_version_value_change c (some (b ∷ old)) none = c
sotfware_version_value_change c (some (b ∷ old)) (some v) =
    if str_eq (b ∷ old) v then c else (cwmp_add_event_container c value_change []).1
